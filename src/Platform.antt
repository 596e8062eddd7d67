-- ===== src/Platform.antt =====
-- src/platform: what the engine asks of the operating system.
pub mod File
