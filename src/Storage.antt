-- ===== src/Storage.antt =====
-- hostd/src/storage: block volumes.
pub mod Files
pub mod Volume
pub mod Worker
pub mod Manager
