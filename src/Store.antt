-- ===== src/Store.antt =====
-- store/message.go: the stored messages, the keys they are stored under, and what a turn reads.
pub mod Decimal
pub mod Keys
pub mod Messages
pub mod Reads
mod Samples
