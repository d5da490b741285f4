-- ===== src/Tool.antt =====
-- The package tool: the registry of the tools that a process runs.
pub mod Registry
