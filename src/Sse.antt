-- ===== src/Sse.antt =====
-- sse: the server's in-process pub/sub.
pub mod Hub
