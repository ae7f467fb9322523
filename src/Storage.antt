-- ===== src/Storage.antt =====
-- pkg/storage: the stored message, the dictionaries of the stores, and the in-memory store.
pub mod Message
pub mod Dict
pub mod Mem
pub mod Retention
pub mod Lock
pub mod File
