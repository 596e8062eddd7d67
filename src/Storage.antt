-- ===== src/Storage.antt =====
-- src/storage and include/dandb/storage: pages and their ids.
pub mod Page
pub mod DatabaseHeader
pub mod DiskManager
pub mod Pager
