-- ===== src/Buffer.antt =====
-- src/buffer: the pages held in memory.
pub mod LruReplacer
pub mod BufferFrame
pub mod BufferPoolManager
