-- ===== src/Wal.antt =====
-- src/wal and include/dandb/wal: the write-ahead log.
pub mod CommitRecord
pub mod Header
pub mod PageFrame
pub mod Scanner
pub mod Manager
