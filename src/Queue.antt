-- ===== src/Queue.antt =====
-- src/queue: when a block may be flushed, how a block is written to disk, and the block store.
pub mod Policy
pub mod Codec
pub mod Store
