-- ===== src/AuthService/Config.antt =====
-- lala-agent/src/services/auth.rs: the configuration, tokens and addresses. The settings of type
-- `i32` and `u64` are numbers.
use lala_search.Prelude.{ℕ, ◌*◌, Bool}
use lala_search.Prelude.Text.{Text, trim, to_ascii_lowercase}
use lala_search.Models.Throttle.{second}
use lala_search.World.{Env, M, pure, draw_token, ◌>>=◌}

pub record AuthConfig : Type 0 where
  pub session_max_age_days : ℕ
  pub magic_link_expiry_minutes : ℕ
  pub invitation_expiry_days : ℕ
  pub magic_link_send_cooldown_seconds : ℕ
  pub magic_link_max_send_attempts : ℕ
  pub magic_link_send_window_minutes : ℕ
  pub magic_link_permanent_block_after_attempts : ℕ
  pub root_admin_email : Text
  pub multi_tenant : Bool

-- `chrono::Duration::seconds`, `minutes` and `days`
abbrev pub seconds : ℕ → ℕ
seconds n = n * second

abbrev pub minutes : ℕ → ℕ
minutes n = n * 60 * second

abbrev pub days : ℕ → ℕ
days n = n * 86400 * second

unfoldable pub hash_token : Env → Text → Text
hash_token e token = e.sha256_hex token

-- The token that the user gets, and the digest that is stored.
unfoldable pub generate_token : Env → M (Text × Text)
generate_token e = do raw_token ← draw_token e; pure (raw_token, hash_token e raw_token)

unfoldable pub canonicalize_email_for_rate_limit : Text → Text
canonicalize_email_for_rate_limit email = to_ascii_lowercase (trim email)
