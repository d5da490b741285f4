-- ===== src/Session.antt =====
-- The package session: what the server knows of the sessions.
pub mod StatusCache
pub mod Turns
