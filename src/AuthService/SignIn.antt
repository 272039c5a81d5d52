-- ===== src/AuthService/SignIn.antt =====
-- lala-agent/src/services/auth.rs: requesting a magic link, and signing in with it.
use lala_search.Prelude.{
  ℕ, ◌+◌, Bool, true, false, not, ◌&&◌, Option, none, some, is_none, unwrap_or, List, [], ◌∷◌,
  if◌then◌else◌,
}
use lala_search.Prelude.Text.{Text, trim, eq_ignore_ascii_case, last_piece}
use lala_search.Models.UserRole.{owner, member}
use lala_search.Models.Auth.{User, MagicLinkToken, OrgMembership, token_is_valid}
use lala_search.Models.Throttle.{
  MagicLinkSendDecision, allow, cooldown_for, blocked_for, permanently_blocked,
}
use lala_search.World.{
  rate_limited, invalid_or_expired_token, expired_or_used_token, self_registration_restricted,
  user_disappeared, user_creation_failed, magic_link, Env, M, pure, raise, or_raise, now, draw_uuid,
  send, ◌>>=◌, ◌>>◌,
}
use lala_search.AuthDb.Users.{
  get_user_by_email, get_user_by_id, create_user, update_user_last_login, set_user_email_verified,
  create_tenant,
}
use lala_search.AuthDb.MagicLinks.{
  create_magic_link_token, get_magic_link_token, mark_magic_link_used,
  consume_magic_link_send_attempt, reset_magic_link_send_attempts,
}
use lala_search.AuthDb.Organizations.{add_org_membership, get_user_orgs}
use lala_search.AuthService.Config.{
  AuthConfig, seconds, minutes, hash_token, generate_token, canonicalize_email_for_rate_limit,
}
use lala_search.AuthService.Sessions.{create_user_session}

-- The decision of the throttle: anything but `allow` ends the request.
unfoldable pub check_decision : MagicLinkSendDecision → M (Unit {0})
check_decision allow = pure tt
check_decision (cooldown_for r) = raise (rate_limited (some r) false)
check_decision (blocked_for r) = raise (rate_limited (some r) false)
check_decision permanently_blocked = raise (rate_limited none true)

-- `orgs.first()`
unfoldable pub first_tenant : List OrgMembership → ℕ → ℕ
first_tenant [] default_tenant_id = default_tenant_id
first_tenant (m ∷ ms) default_tenant_id = m.tenant_id

module _ (e : Env) (config : AuthConfig) where
  unfoldable pub request_magic_link : Text → M (Unit {0})
  request_magic_link address = do
    let email = trim address
    t ← now e
    decision ←
        consume_magic_link_send_attempt e (canonicalize_email_for_rate_limit email) t
          (seconds config.magic_link_send_cooldown_seconds) config.magic_link_max_send_attempts
          (minutes config.magic_link_send_window_minutes)
          config.magic_link_permanent_block_after_attempts
    check_decision decision
    (raw_token, token_hash) ← generate_token e
    u ← now e
    create_magic_link_token e (record {
      token_hash = token_hash;
      email = email;
      tenant_id = none;
      redirect_url = none;
      expires_at = u + minutes config.magic_link_expiry_minutes;
    })
    send e (magic_link email raw_token)

  unfoldable pub update_existing_user : User → M User
  update_existing_user user = do
    update_user_last_login e user.user_id
    if user.email_verified then pure tt else set_user_email_verified e user.user_id
    found ← get_user_by_id e user.user_id
    or_raise user_disappeared found

  unfoldable pub create_new_user : Text → ℕ → M User
  create_new_user email default_tenant_id = do
    user_id ← create_user e email
    set_user_email_verified e user_id
    add_org_membership e default_tenant_id user_id member none
    found ← get_user_by_id e user_id
    or_raise user_creation_failed found

  unfoldable pub update_or_create : Text → ℕ → Option User → M User
  update_or_create email default_tenant_id (some user) = update_existing_user user
  update_or_create email default_tenant_id none = create_new_user email default_tenant_id

  unfoldable pub get_or_create_user : Text → ℕ → M User
  get_or_create_user email default_tenant_id = do
    found ← get_user_by_email e email
    update_or_create email default_tenant_id found

  unfoldable pub create_user_with_new_tenant : Text → M User
  create_user_with_new_tenant email = do
    new_tenant_id ← draw_uuid e
    create_tenant e new_tenant_id (last_piece b'@' email)
    user ← get_or_create_user email new_tenant_id
    add_org_membership e new_tenant_id user.user_id owner none
    pure user

  unfoldable pub resolve_or_create_user : Text → ℕ → Bool → ℕ → M User
  resolve_or_create_user email tenant_id is_root_admin default_tenant_id = do
    user ← get_or_create_user email tenant_id
    if is_root_admin
        then add_org_membership e default_tenant_id user.user_id owner none
        else pure tt
    pure user

  unfoldable pub resolve_session_tenant : ℕ → ℕ → M ℕ
  resolve_session_tenant user_id default_tenant_id = do
    orgs ← get_user_orgs e user_id
    pure (first_tenant orgs default_tenant_id)

  unfoldable pub is_root_admin : MagicLinkToken → Bool
  is_root_admin magic_token = eq_ignore_ascii_case config.root_admin_email magic_token.email

  -- The user that signs in: a new tenant's owner on an open signup, and otherwise a user that
  -- exists or is created on the token's tenant or the default one.
  unfoldable pub sign_in_user : MagicLinkToken → Option User → ℕ → M User
  sign_in_user magic_token existing_user default_tenant_id =
      if is_none existing_user && not (is_root_admin magic_token) && config.multi_tenant
      then create_user_with_new_tenant magic_token.email
      else resolve_or_create_user magic_token.email
          (unwrap_or magic_token.tenant_id default_tenant_id) (is_root_admin magic_token)
          default_tenant_id

  -- What follows the lookup of the user.
  unfoldable pub enter :
      MagicLinkToken → Option Text → Option Text → ℕ → Option User → M (Text × User × ℕ)
  enter magic_token user_agent ip_address default_tenant_id existing_user =
      if is_none existing_user && not (is_root_admin magic_token) && not config.multi_tenant
      then raise self_registration_restricted
      else do
        user ← sign_in_user magic_token existing_user default_tenant_id
        tenant_id ← resolve_session_tenant user.user_id default_tenant_id
        session_token ← create_user_session e config user.user_id tenant_id user_agent ip_address
        pure (session_token, user, tenant_id)

  -- What follows the marking of the token.
  unfoldable pub sign_in : MagicLinkToken → Option Text → Option Text → ℕ → M (Text × User × ℕ)
  sign_in magic_token user_agent ip_address default_tenant_id = do
    reset_magic_link_send_attempts e (canonicalize_email_for_rate_limit magic_token.email)
    existing_user ← get_user_by_email e magic_token.email
    enter magic_token user_agent ip_address default_tenant_id existing_user

  -- What follows the check of the token: it is marked as used before anything else.
  unfoldable pub redeem :
      Text → MagicLinkToken → Option Text → Option Text → ℕ → M (Text × User × ℕ)
  redeem token_hash magic_token user_agent ip_address default_tenant_id = do
    mark_magic_link_used e token_hash
    sign_in magic_token user_agent ip_address default_tenant_id

  unfoldable pub verify_magic_link : Text → Option Text → Option Text → ℕ → M (Text × User × ℕ)
  verify_magic_link token user_agent ip_address default_tenant_id = do
    found ← get_magic_link_token e (hash_token e token)
    magic_token ← or_raise invalid_or_expired_token found
    t ← now e
    if token_is_valid magic_token t
        then redeem (hash_token e token) magic_token user_agent ip_address default_tenant_id
        else raise expired_or_used_token
