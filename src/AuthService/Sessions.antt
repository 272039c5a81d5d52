-- ===== src/AuthService/Sessions.antt =====
-- lala-agent/src/services/auth.rs: creating, validating and ending sessions.
use lala_search.Prelude.{ℕ, ◌+◌, Option, none, some, if◌then◌else◌}
use lala_search.Prelude.Text.{Text}
use lala_search.Models.Auth.{Session, User, OrgMembership, AuthUser, session_is_expired}
use lala_search.World.{
  user_not_found, not_a_member_of_tenant, Env, M, pure, or_raise, ignore, now, ◌>>=◌, ◌>>◌,
}
use lala_search.AuthDb.Users.{get_user_by_id}
use lala_search.AuthDb.Sessions.{
  create_session, get_session, delete_session, delete_user_sessions, touch_session,
}
use lala_search.AuthDb.Organizations.{get_org_membership}
use lala_search.AuthService.Config.{AuthConfig, days, hash_token, generate_token}

abbrev pub auth_user : User → Session → OrgMembership → AuthUser
auth_user user session membership = record {
  user_id = user.user_id;
  email = user.email;
  tenant_id = session.tenant_id;
  role = membership.role;
}

module _ (e : Env) where
  unfoldable pub create_user_session : AuthConfig → ℕ → ℕ → Option Text → Option Text → M Text
  create_user_session config user_id tenant_id user_agent ip_address = do
    (session_token, session_hash) ← generate_token e
    t ← now e
    create_session e (record {
      session_id_hash = session_hash;
      user_id = user_id;
      tenant_id = tenant_id;
      expires_at = t + days config.session_max_age_days;
      user_agent = user_agent;
      ip_address = ip_address;
    })
    pure session_token

  -- The user and the role of a session that has not expired.
  unfoldable pub authenticate : Text → Session → M (Option AuthUser)
  authenticate session_hash session = do
    found ← get_user_by_id e session.user_id
    user ← or_raise user_not_found found
    held ← get_org_membership e session.tenant_id session.user_id
    membership ← or_raise not_a_member_of_tenant held
    ignore (touch_session e session_hash)
    pure (some (auth_user user session membership))

  -- An expired session is cleaned up.
  unfoldable pub drop_expired : Text → M (Option AuthUser)
  drop_expired session_hash = do delete_session e session_hash; pure none

  unfoldable pub validate_found : Text → Option Session → M (Option AuthUser)
  validate_found session_hash none = pure none
  validate_found session_hash (some session) = do
    t ← now e
    if session_is_expired session t
        then drop_expired session_hash
        else authenticate session_hash session

  unfoldable pub validate_session : Text → M (Option AuthUser)
  validate_session session_token = do
    session ← get_session e (hash_token e session_token)
    validate_found (hash_token e session_token) session

  unfoldable pub check_membership : ℕ → ℕ → M (Option OrgMembership)
  check_membership tenant_id user_id = get_org_membership e tenant_id user_id

  unfoldable pub sign_out : Text → M (Unit {0})
  sign_out session_token = delete_session e (hash_token e session_token)

  unfoldable pub sign_out_all : ℕ → M (Unit {0})
  sign_out_all user_id = delete_user_sessions e user_id
