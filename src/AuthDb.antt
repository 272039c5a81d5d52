-- ===== src/AuthDb.antt =====
-- lala-agent/src/services/auth_db.rs: the queries of authentication, each a single statement but
-- for `consume_magic_link_send_attempt`, which is a transaction.
pub mod Users
pub mod Sessions
pub mod MagicLinks
pub mod Organizations
pub mod Stable
pub mod Upsert
pub mod Throttling
