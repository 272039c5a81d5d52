-- ===== src/Models/Auth.antt =====
-- lala-agent/src/models/auth.rs. Identifiers (`Uuid`) are numbers that are only compared, and a
-- `DateTime<Utc>` is a number of nanoseconds.
use lala_search.Prelude.{ℕ, Bool, not, ◌&&◌, Option, ltb}
use lala_search.Prelude.Text.{Text}
use lala_search.Models.UserStatus.{UserStatus}
use lala_search.Models.UserRole
use lala_search.Models.UserRole.{UserRole}

pub record User : Type 0 where
  pub user_id : ℕ
  pub email : Text
  pub email_verified : Bool
  pub created_at : ℕ
  pub updated_at : ℕ
  pub last_login_at : Option ℕ
  pub status : UserStatus

pub record Session : Type 0 where
  pub session_id : Text
  pub user_id : ℕ
  pub tenant_id : ℕ
  pub created_at : ℕ
  pub expires_at : ℕ
  pub last_active_at : ℕ
  pub user_agent : Option Text
  pub ip_address : Option Text

pub record MagicLinkToken : Type 0 where
  pub token : Text
  pub email : Text
  pub tenant_id : Option ℕ
  pub redirect_url : Option Text
  pub created_at : ℕ
  pub expires_at : ℕ
  pub used : Bool

pub record OrgMembership : Type 0 where
  pub tenant_id : ℕ
  pub user_id : ℕ
  pub role : UserRole
  pub joined_at : ℕ
  pub invited_by : Option ℕ

pub record OrgInvitation : Type 0 where
  pub token : Text
  pub tenant_id : ℕ
  pub email : Text
  pub role : UserRole
  pub invited_by : ℕ
  pub created_at : ℕ
  pub expires_at : ℕ
  pub accepted : Bool

pub record AuthUser : Type 0 where
  pub user_id : ℕ
  pub email : Text
  pub tenant_id : ℕ
  pub role : UserRole

-- `is_expired` of sessions, tokens and invitations: `expires_at < Utc::now()`
unfoldable pub session_is_expired : Session → ℕ → Bool
session_is_expired s now = ltb s.expires_at now

unfoldable pub token_is_expired : MagicLinkToken → ℕ → Bool
token_is_expired t now = ltb t.expires_at now

unfoldable pub token_is_valid : MagicLinkToken → ℕ → Bool
unfolding token_is_expired
token_is_valid t now = not t.used && not (token_is_expired t now)

unfoldable pub invitation_is_expired : OrgInvitation → ℕ → Bool
invitation_is_expired i now = ltb i.expires_at now

unfoldable pub invitation_is_valid : OrgInvitation → ℕ → Bool
unfolding invitation_is_expired
invitation_is_valid i now = not i.accepted && not (invitation_is_expired i now)

-- The permissions of `AuthUser` are those of its role.
unfoldable pub can_invite : AuthUser → Bool
unfolding UserRole.can_invite
can_invite u = UserRole.can_invite u.role

unfoldable pub can_manage_settings : AuthUser → Bool
unfolding UserRole.can_manage_settings
can_manage_settings u = UserRole.can_manage_settings u.role

unfoldable pub can_remove_members : AuthUser → Bool
unfolding UserRole.can_remove_members
can_remove_members u = UserRole.can_remove_members u.role
