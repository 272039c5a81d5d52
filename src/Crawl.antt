-- ===== src/Crawl.antt =====
-- lala-agent/src/services/db.rs and lala-agent/src/services/queue_processor.rs: the crawl queue, and
-- how its entries are processed.
pub mod Queue
pub mod Process
pub mod Order
pub mod Retry
pub mod Progress
pub mod Switch
pub mod Kept
pub mod Robots
pub mod Web
pub mod Links
pub mod Stages
pub mod Discovered
pub mod Enqueued
pub mod Found
pub mod Respect
pub mod Extracted
pub mod Live
pub mod Queued
pub mod Visited
