-- ===== src/Workflow.antt =====
-- The package workflow: the participants of a session, their turns and the background tasks.
pub mod Ids
pub mod Messages
pub mod Participant
pub mod Agent
pub mod Task
