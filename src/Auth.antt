-- ===== src/Auth.antt =====
-- auth: the login limits and the addresses they go by.
pub mod Throttle
pub mod Clients
