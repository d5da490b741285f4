-- ===== src/Conversation.antt =====
-- conversation: a session's stored messages, in the order and the form a model reads them.
pub mod Texts
pub mod Order
pub mod Convert
