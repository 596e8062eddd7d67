-- ===== src/Core.antt =====
-- src/core and include/dandb/core: status codes, fixed-width integers in byte buffers, checksums.
pub mod Status
pub mod Bytes
pub mod Endian
pub mod Checksum
