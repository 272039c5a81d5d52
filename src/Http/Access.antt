-- ===== src/Http/Access.antt =====
-- lala-agent/src/app.rs: whose database a request works on. An answer that is no success is a
-- `status`; its text is left aside. `parse_uuid` is `Uuid`'s `parse`.
use lala_search.Prelude.{
  ℕ, Bool, true, false, ◌&&◌, Option, none, some, List, [], ◌∷◌, ◌==◌, not, unwrap_or,
  if◌then◌else◌,
}
use lala_search.Prelude.Text.{Text, codes, text_eq, split, split_once}
use lala_search.Models.UserRole.{UserRole, owner, role_eq}
use lala_search.Models.Auth.{AuthUser, OrgMembership}
use lala_search.World.{Env, M, pure, or_raise, as_status, status, attempt, ◌>>=◌, ◌>>◌}
use lala_search.AuthService.Sessions.{validate_session, check_membership}
use lala_search.Crawl.Queue.{DbClient}
use lala_search.Site.Tenants.{with_tenant}

pub data DeploymentMode : Type 0 where
  single_tenant multi_tenant : DeploymentMode

abbrev pub is_multi_tenant : DeploymentMode → Bool
is_multi_tenant single_tenant = false
is_multi_tenant multi_tenant = true

-- `auth_enabled` is whether `auth_state` is there.
pub record AppState : Type 0 where
  pub db_client : DbClient
  pub deployment_mode : DeploymentMode
  pub default_tenant_id : ℕ
  pub auth_enabled : Bool

-- What the extractors read of a request: its cookies, which may be unreadable, and its query
pub record Request : Type 0 where
  pub cookies : Option (List (Text × Text))
  pub query : Option Text

pub record TenantAccess : Type 0 where
  pub user : Option AuthUser
  pub role : Option UserRole
  pub tenant_id : ℕ

unfoldable pub allowed_domain_added_by : Option AuthUser → Text
allowed_domain_added_by none = codes "api"
allowed_domain_added_by (some user) = user.email

abbrev pub cookie_named : Text → List (Text × Text) → Option Text
cookie_named name [] = none
cookie_named name ((n, value) ∷ cookies) =
    if text_eq n name then some value else cookie_named name cookies

-- The value of a pair `key=value` of the key `tenant_id`
unfoldable pub tenant_value : Option (Text × Text) → Option Text
tenant_value none = none
tenant_value (some (key, value)) = if text_eq key (codes "tenant_id") then some value else none

abbrev pub first_some : Option Text → Option Text → Option Text
first_some none other = other
first_some (some value) other = some value

-- The first of the query's pairs that names a tenant
unfoldable pub first_tenant_value : List Text → Option Text
unfolding tenant_value
first_tenant_value [] = none
first_tenant_value (pair ∷ pairs) =
    first_some (tenant_value (split_once b'=' pair)) (first_tenant_value pairs)

unfoldable pub requested_tenant : Request → Option Text
unfolding first_tenant_value
requested_tenant request = first_tenant_value (split b'&' (unwrap_or request.query []))

module _ (parse_uuid : Text → Option ℕ) (e : Env) (state : AppState) (request : Request) where
  -- `validate_session` of the routes
  unfoldable pub validate_request : M AuthUser
  validate_request = do
    or_raise (status 503) (if state.auth_enabled then some tt else none)
    cookies ← or_raise (status 500) request.cookies
    token ← or_raise (status 401) (cookie_named (codes "lala_session") cookies)
    found ← as_status 500 (validate_session e token)
    or_raise (status 401) found

  unfoldable pub member_of : ℕ → ℕ → M OrgMembership
  member_of tenant_id user_id = do
    found ← as_status 500 (check_membership e tenant_id user_id)
    or_raise (status 403) found

  unfoldable pub resolve_requested : AuthUser → ℕ → M ℕ
  resolve_requested user requested_id =
      if requested_id == user.tenant_id
      then pure requested_id
      else do member_of requested_id user.user_id; pure requested_id

  unfoldable pub resolve_raw : AuthUser → Option Text → M ℕ
  resolve_raw user none = pure user.tenant_id
  resolve_raw user (some raw) = do
    requested_id ← or_raise (status 400) (parse_uuid raw)
    resolve_requested user requested_id

  unfoldable pub resolve_tenant_override : AuthUser → M ℕ
  resolve_tenant_override user = resolve_raw user (requested_tenant request)

  unfoldable pub resolve_multi_tenant_db : M DbClient
  resolve_multi_tenant_db = do
    user ← validate_request
    tenant_id ← resolve_tenant_override user
    pure (with_tenant state.db_client tenant_id)

  unfoldable pub validated_db : DeploymentMode → M DbClient
  validated_db single_tenant = validate_request >> pure state.db_client
  validated_db multi_tenant = resolve_multi_tenant_db

  -- The extractor `TenantDb`
  unfoldable pub tenant_db : M DbClient
  tenant_db =
      if not state.auth_enabled then pure state.db_client else validated_db state.deployment_mode

  unfoldable pub role_in : AuthUser → ℕ → M UserRole
  role_in user tenant_id =
      if tenant_id == user.tenant_id
      then pure user.role
      else do membership ← member_of tenant_id user.user_id; pure membership.role

  unfoldable pub tenant_of : DeploymentMode → AuthUser → M ℕ
  tenant_of single_tenant user = pure state.default_tenant_id
  tenant_of multi_tenant user = resolve_tenant_override user

  unfoldable pub validated_access : M TenantAccess
  validated_access = do
    user ← validate_request
    tenant_id ← tenant_of state.deployment_mode user
    role ← role_in user tenant_id
    pure (record { user = some user; role = some role; tenant_id = tenant_id })

  -- The extractor `TenantAccess`
  unfoldable pub tenant_access : M TenantAccess
  tenant_access =
      if not state.auth_enabled
      then pure (record { user = none; role = none; tenant_id = state.default_tenant_id })
      else validated_access

  unfoldable pub search_tenant_of : Option AuthUser → M (Option ℕ)
  search_tenant_of none = pure none
  search_tenant_of (some user) = do tenant_id ← resolve_tenant_override user; pure (some tenant_id)

  -- The extractor `SearchTenantId`: who is not signed in searches without a filter.
  unfoldable pub search_tenant_id : M (Option ℕ)
  search_tenant_id =
      if not (is_multi_tenant state.deployment_mode)
      then pure none
      else if not state.auth_enabled
      then pure none
      else do user ← attempt validate_request; search_tenant_of user

unfoldable pub is_owner : Option UserRole → Bool
is_owner none = false
is_owner (some role) = role_eq role owner

unfoldable pub may_edit : Option AuthUser → Option UserRole → Bool → Bool
unfolding is_owner
may_edit none role is_default = is_default
may_edit (some user) role is_default = is_default && is_owner role

unfoldable pub can_edit_index_capacity : TenantAccess → AppState → Bool
unfolding may_edit
can_edit_index_capacity access state =
    may_edit access.user access.role (access.tenant_id == state.default_tenant_id)
