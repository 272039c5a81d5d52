-- ===== src/Tests.antt =====
-- The theorems at work on a small organization.
pub mod Auth
pub mod Witnesses
pub mod Throttle
pub mod Crawl
mod Site
mod Web
mod Http
