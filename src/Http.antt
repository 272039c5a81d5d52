-- ===== src/Http.antt =====
-- lala-agent/src/app.rs: the HTTP application.
pub mod Access
pub mod Queueing
pub mod Settings
pub mod Undo
pub mod Guarded
pub mod Full
pub mod Permitted
