-- ===== src/Site.antt =====
-- lala-agent/src/services/db.rs: the tenant's row, the domains that it may crawl, its pages, its
-- index capacity and the history of its administrators' actions.
pub mod Tenants
pub mod Domains
pub mod Pages
pub mod Capacity
pub mod History
pub mod Rollback
pub mod Allowed
pub mod PageKeys
pub mod CapacityRead
pub mod Undo
