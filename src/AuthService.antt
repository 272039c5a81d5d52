-- ===== src/AuthService.antt =====
-- lala-agent/src/services/auth.rs: sign-in by magic link, sessions, and organizations.
pub mod Config
pub mod Sessions
pub mod SignIn
pub mod Members
pub mod Stable
pub mod Calls
pub mod SingleUse
pub mod AcceptOnce
pub mod Removal
pub mod Validity
pub mod Enrolment
pub mod RateLimit
pub mod Registration
pub mod Invitations
