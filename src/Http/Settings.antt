-- ===== src/Http/Settings.antt =====
-- lala-agent/src/app.rs: the handlers of a tenant's settings.
use lala_search.Prelude.{ℕ, Bool, true, ◌||◌, Option, none, some, [], ◌∷◌, ◌++◌, ltb, if◌then◌else◌}
use lala_search.Prelude.Text.{Text, codes, is_empty_text, byte_len}
use lala_search.Prelude.Integers.{ℤ, leb_ℤ, is_positive, int_to_string}
use lala_search.Models.History.{edit, setting, Snapshot}
use lala_search.World.{Env, M, pure, raise, or_raise, as_status, status, attempt, ◌>>=◌, ◌>>◌}
use lala_search.Crawl.Queue.{DbClient, is_crawling_enabled, set_crawling_enabled}
use lala_search.Site.Tenants.{get_tenant_name, update_tenant_name}
use lala_search.Site.Capacity.{
  index_capacity_setting_key, get_index_usage_bytes, get_index_capacity_bytes,
  set_index_capacity_bytes,
}
use lala_search.Site.History.{record_action}
use lala_search.Http.Access.{
  AppState, Request, TenantAccess, tenant_db, tenant_access, can_edit_index_capacity,
}
use lala_search.Http.Queueing.{id_of}

pub record CrawlingEnabledResponse : Type 0 where
  pub enabled : Bool
  pub action_id : Option ℕ

pub record IndexCapacityResponse : Type 0 where
  pub usage_bytes : ℤ
  pub max_bytes : ℤ
  pub limit_reached : Bool
  pub can_edit_max : Bool
  pub action_id : Option ℕ

abbrev pub bool_text : Bool → Text
bool_text b = if b then codes "true" else codes "false"

abbrev pub setting_snapshot : Text → Text → Snapshot
setting_snapshot key value = (codes "key", some key) ∷ (codes "value", some value) ∷ []

abbrev pub enabled_text : Bool → Text
enabled_text b = if b then codes "enabled" else codes "disabled"

module _ (e : Env) (db : DbClient) where
  unfoldable pub get_crawling_enabled : M CrawlingEnabledResponse
  get_crawling_enabled = do
    enabled ← as_status 500 (is_crawling_enabled e db)
    pure (record { enabled = enabled; action_id = none })

  unfoldable pub change_crawling_enabled : Bool → M CrawlingEnabledResponse
  change_crawling_enabled enabled = do
    old_enabled ← as_status 500 (is_crawling_enabled e db)
    as_status 500 (set_crawling_enabled e db enabled)
    recorded ← attempt (
        record_action e db setting edit (codes "crawling_enabled") none
          (some (setting_snapshot (codes "crawling_enabled") (bool_text old_enabled)))
          (some (setting_snapshot (codes "crawling_enabled") (bool_text enabled)))
          (codes "Changed crawling from "
            ++ enabled_text old_enabled
            ++ codes " to "
            ++ enabled_text enabled)
          none)
    pure (record { enabled = enabled; action_id = id_of recorded })

  unfoldable pub read_tenant_name : M Text
  read_tenant_name = as_status 500 (get_tenant_name e db)

  -- The length is in bytes.
  unfoldable pub change_tenant_name : Option Text → M Text
  change_tenant_name given = do
    name ← or_raise (status 400) given
    if is_empty_text name || ltb 200 (byte_len name)
        then raise (status 400)
        else as_status 500 (update_tenant_name e db name) >> pure name

  unfoldable pub get_index_capacity : TenantAccess → AppState → M IndexCapacityResponse
  get_index_capacity access state = do
    usage_bytes ← as_status 500 (get_index_usage_bytes e db)
    max_bytes ← as_status 500 (get_index_capacity_bytes e db)
    pure (record {
      usage_bytes = usage_bytes;
      max_bytes = max_bytes;
      limit_reached = leb_ℤ max_bytes usage_bytes;
      can_edit_max = can_edit_index_capacity access state;
      action_id = none;
    })

  unfoldable pub change_index_capacity : ℤ → M IndexCapacityResponse
  change_index_capacity max_bytes = do
    old_max_bytes ← as_status 500 (get_index_capacity_bytes e db)
    as_status 500 (set_index_capacity_bytes e db max_bytes)
    recorded ← attempt (
        record_action e db setting edit index_capacity_setting_key none
          (some (setting_snapshot index_capacity_setting_key (int_to_string old_max_bytes)))
          (some (setting_snapshot index_capacity_setting_key (int_to_string max_bytes)))
          (codes "Changed indexed capacity from "
            ++ int_to_string old_max_bytes
            ++ codes " to "
            ++ int_to_string max_bytes
            ++ codes " bytes")
          none)
    usage_bytes ← as_status 500 (get_index_usage_bytes e db)
    pure (record {
      usage_bytes = usage_bytes;
      max_bytes = max_bytes;
      limit_reached = leb_ℤ max_bytes usage_bytes;
      can_edit_max = true;
      action_id = id_of recorded;
    })

  unfoldable pub set_index_capacity : TenantAccess → AppState → ℤ → M IndexCapacityResponse
  set_index_capacity access state max_bytes =
      if can_edit_index_capacity access state
      then if is_positive max_bytes then change_index_capacity max_bytes else raise (status 400)
      else raise (status 403)

module _ (parse_uuid : Text → Option ℕ) (e : Env) (state : AppState) (request : Request) where
  unfoldable pub get_crawling_enabled_handler : M CrawlingEnabledResponse
  get_crawling_enabled_handler = do
    db ← tenant_db parse_uuid e state request
    get_crawling_enabled e db

  unfoldable pub set_crawling_enabled_handler : Bool → M CrawlingEnabledResponse
  set_crawling_enabled_handler enabled = do
    db ← tenant_db parse_uuid e state request
    change_crawling_enabled e db enabled

  unfoldable pub get_tenant_name_handler : M Text
  get_tenant_name_handler = do db ← tenant_db parse_uuid e state request; read_tenant_name e db

  unfoldable pub set_tenant_name_handler : Option Text → M Text
  set_tenant_name_handler name = do
    db ← tenant_db parse_uuid e state request
    change_tenant_name e db name

  unfoldable pub get_index_capacity_handler : M IndexCapacityResponse
  get_index_capacity_handler = do
    db ← tenant_db parse_uuid e state request
    access ← tenant_access parse_uuid e state request
    get_index_capacity e db access state

  unfoldable pub set_index_capacity_handler : ℤ → M IndexCapacityResponse
  set_index_capacity_handler max_bytes = do
    db ← tenant_db parse_uuid e state request
    access ← tenant_access parse_uuid e state request
    set_index_capacity e db access state max_bytes
