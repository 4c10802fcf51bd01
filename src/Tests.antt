-- ===== src/Tests.antt =====
-- Witnesses: each theorem that has hypotheses, applied where they hold.
pub mod Toy
pub mod Tx
pub mod Queues
pub mod Setup
pub mod Config
pub mod Rx
pub mod Start
pub mod Programs
pub mod Packets
pub mod Receipts
pub mod Halves
pub mod OneSocket
pub mod Exchange
