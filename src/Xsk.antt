-- ===== src/Xsk.antt =====
-- src/xsk: the transmit and the receive end of a socket, and their construction.
pub mod Lent
pub mod Tx
pub mod Rx
pub mod Build
pub mod Halves
