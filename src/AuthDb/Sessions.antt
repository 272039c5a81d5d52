-- ===== src/AuthDb/Sessions.antt =====
-- lala-agent/src/services/auth_db.rs: sessions.
use lala_search.Prelude.{ℕ, Bool, not, ◌&&◌, Option, [], ◌∷◌, ◌++◌, ◌==◌}
use lala_search.Prelude.Text.{Text, text_eq}
use lala_search.Prelude.Table.{select_one, exists_row, update_rows, delete_rows}
use lala_search.Models.Auth.{Session}
use lala_search.World.{Env, M, fetch, write, write_if}
use lala_search.AuthDb.Users.{user_exists, tenant_exists}

pub record CreateSessionParams : Type 0 where
  pub session_id_hash : Text
  pub user_id : ℕ
  pub tenant_id : ℕ
  pub expires_at : ℕ
  pub user_agent : Option Text
  pub ip_address : Option Text

abbrev pub is_session : Text → Session → Bool
is_session session_id_hash r = text_eq r.session_id session_id_hash

abbrev pub new_session : CreateSessionParams → ℕ → Session
new_session p t = record {
  session_id = p.session_id_hash;
  user_id = p.user_id;
  tenant_id = p.tenant_id;
  created_at = t;
  expires_at = p.expires_at;
  last_active_at = t;
  user_agent = p.user_agent;
  ip_address = p.ip_address;
}

module _ (e : Env) where
  unfoldable pub create_session : CreateSessionParams → M (Unit {0})
  create_session p =
      write_if e
        (λ d.
          not (exists_row (is_session p.session_id_hash) d.sessions)
          && user_exists p.user_id d
          && tenant_exists p.tenant_id d)
        (λ t d. record d { sessions = d.sessions ++ new_session p t ∷ [] })

  unfoldable pub get_session : Text → M (Option Session)
  get_session session_id_hash = fetch e (λ d. select_one (is_session session_id_hash) d.sessions)

  unfoldable pub delete_session : Text → M (Unit {0})
  delete_session session_id_hash =
      write e (λ t d. record d { sessions = delete_rows (is_session session_id_hash) d.sessions })

  unfoldable pub delete_user_sessions : ℕ → M (Unit {0})
  delete_user_sessions user_id = write e (λ t d. record d {
    sessions = delete_rows (λ (r : Session). r.user_id == user_id) d.sessions;
  })

  unfoldable pub touch_session : Text → M (Unit {0})
  touch_session session_id_hash = write e (λ t d. record d {
    sessions =
        update_rows (is_session session_id_hash) (λ r. record r { last_active_at = t }) d.sessions;
  })
