-- ===== src/Models/Rows.antt =====
-- The rows of the tables (lala-agent/migrations) that hold more than the structs read from them:
-- a soft-deleted row stays in its table, and roles and statuses are text.
use lala_search.Prelude.{ℕ, Bool, Option}
use lala_search.Prelude.Text.{Text}

pub record UserRow : Type 0 where
  pub user_id : ℕ
  pub email : Text
  pub email_verified : Bool
  pub created_at : ℕ
  pub updated_at : ℕ
  pub last_login_at : Option ℕ
  pub deleted_at : Option ℕ
  pub status : Text

pub record MembershipRow : Type 0 where
  pub tenant_id : ℕ
  pub user_id : ℕ
  pub role : Text
  pub joined_at : ℕ
  pub invited_by : Option ℕ
  pub deleted_at : Option ℕ

pub record InvitationRow : Type 0 where
  pub token_hash : Text
  pub tenant_id : ℕ
  pub email : Text
  pub role : Text
  pub invited_by : ℕ
  pub created_at : ℕ
  pub expires_at : ℕ
  pub accepted : Bool

pub record TenantRow : Type 0 where
  pub tenant_id : ℕ
  pub name : Text
  pub created_at : ℕ
  pub deleted_at : Option ℕ

-- The type of an error is text in its table.
pub record CrawlErrorRow : Type 0 where
  pub error_id : ℕ
  pub tenant_id : ℕ
  pub page_id : Option ℕ
  pub domain : Text
  pub occurred_at : ℕ
  pub url : Text
  pub error_type : Text
  pub error_message : Text
  pub attempt_count : ℕ
  pub stack_trace : Option Text

pub record SettingRow : Type 0 where
  pub tenant_id : ℕ
  pub setting_key : Text
  pub setting_value : Option Text
  pub updated_at : ℕ

pub record AllowedDomainRow : Type 0 where
  pub tenant_id : ℕ
  pub domain : Text
  pub added_by : Option Text
  pub notes : Option Text
  pub added_at : ℕ
  pub deleted_at : Option ℕ
