-- ===== src/Umem.antt =====
-- src/umem: the memory area, its frames, its configuration, and the fill and completion queues.
pub mod Mmap
pub mod Config
pub mod Frame
pub mod FillQueue
pub mod CompQueue
pub mod Build
