-- ===== src/Models.antt =====
-- The data of lala-agent/src/models.
pub mod UserStatus
pub mod UserRole
pub mod Auth
pub mod Rows
pub mod Throttle
pub mod Crawl
pub mod History
pub mod Pages
pub mod Search
