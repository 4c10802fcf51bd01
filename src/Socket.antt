-- ===== src/Socket.antt =====
-- src/socket: the socket's descriptor and polling, its configuration, and the tx and rx queues.
pub mod Config
pub mod Poll
pub mod TxQueue
pub mod RxQueue
pub mod Create
