-- ===== src/Tests/Http.antt =====
-- The theorems on the HTTP application at a request of an administrator.
use lala_search.Prelude.{◌≡◌, refl, ◌⊎◌, ◌^◌, true, false, Option, none, some, [], ◌∷◌}
use lala_search.Prelude.Text.{Text, codes, text_eq, split, split_from, split_once}
use lala_search.Prelude.Integers.{
  pos, is_positive, ◌+ℤ◌, int_to_string, decimal, digits, parse_i64, parse_magnitude, parse_digits,
  push_digit,
}
use lala_search.Prelude.Table.{exists_row, select_one, update_rows}
use lala_search.Models.UserRole.{UserRole, owner, admin}
use lala_search.World.{
  World, ok, continue, pure, raise, or_raise, ignore, fetch, write, write_if, tick, now, draw_uuid,
  caught, or_none, map_failure, as_status, attempt, ◌>>=◌,
}
use lala_search.Models.Auth.{AuthUser, session_is_expired}
use lala_search.Models.UserStatus
use lala_search.Models.UserRole
use lala_search.Models.History.{action_text, entity_text}
use lala_search.AuthDb.Users.{get_user_by_id}
use lala_search.AuthDb.Sessions.{get_session, touch_session}
use lala_search.AuthDb.Organizations.{get_org_membership}
use lala_search.AuthService.Config.{hash_token}
use lala_search.AuthService.Sessions.{validate_found, authenticate, validate_session}
use lala_search.Site.Tenants.{with_tenant}
use lala_search.Site.Capacity.{
  usage_of, get_index_usage_bytes, capacity_of, get_index_capacity_bytes, set_index_capacity_bytes,
}
use lala_search.Site.History.{insert_action, record_action}
use lala_search.Crawl.Process.{Url}
use lala_search.Crawl.Queue.{DbClient, setting_value, upsert_setting, get_setting, set_setting}
use lala_search.Crawl.Discovered.{capacity_in}
use lala_search.Http.Access.{
  multi_tenant, AppState, Request, TenantAccess, validate_request, tenant_db, tenant_value,
  first_tenant_value, requested_tenant, resolve_raw, resolve_tenant_override,
  resolve_multi_tenant_db, validated_db, may_edit, can_edit_index_capacity,
}
use lala_search.Http.Guarded.{IsSignedIn, IsScoped, tenant_db-IsScoped}
use lala_search.Http.Queueing.{queue_url_for_crawling}
use lala_search.Http.Full.{Queued, queue_url_for_crawling-Queued}
use lala_search.Http.Settings.{IndexCapacityResponse, change_index_capacity, set_index_capacity}
use lala_search.Http.Permitted.{set_index_capacity-permitted}
use lala_search.Tests.Auth.{env, world}
use lala_search.Tests.Crawl.{client}
use lala_search.Tests.Site.{no_uuid, site_world, capacity_world}

abbrev state : AppState
state = record {
  db_client = record client { tenant_id = 1 };
  deployment_mode = multi_tenant;
  default_tenant_id = 7;
  auth_enabled = true;
}

abbrev request : Request
request = record { cookies = some ((codes "lala_session", codes "s") ∷ []); query = none }

abbrev after_request : World
after_request = (tenant_db no_uuid env state request world).1

tenant_db_done : tenant_db no_uuid env state request world ≡ (ok client, after_request)
unfolding tenant_db validated_db resolve_multi_tenant_db validate_request resolve_tenant_override
    resolve_raw requested_tenant first_tenant_value tenant_value split split_from split_once
    with_tenant validate_session validate_found authenticate get_session get_user_by_id
    get_org_membership touch_session hash_token session_is_expired UserRole.parse UserStatus.parse
    select_one update_rows text_eq caught map_failure as_status continue ignore or_raise pure raise
    now fetch write tick ◌>>=◌
tenant_db_done = refl

tenant_db-IsScoped_example :
    (user : AuthUser) × IsSignedIn env request world user
    × IsScoped no_uuid env state request multi_tenant user client after_request.db
tenant_db-IsScoped_example =
    tenant_db-IsScoped no_uuid env state request world client after_request refl tenant_db_done

-- Every text is a URL of one host.
abbrev one_host : Text → Option Url
one_host s = some (record { host_str = some (codes "x.io"); port = none; path = codes "/" })

abbrev roomy : DbClient
roomy = record client { tenant_index_capacity_bytes = some (codes "9") }

queue_url_for_crawling-Queued_example :
    Queued one_host env roomy
      (codes "https://x.io/")
      (2 ^ 31)
      site_world.db
      (queue_url_for_crawling one_host env roomy (codes "https://x.io/") (2 ^ 31) site_world).1
queue_url_for_crawling-Queued_example =
    queue_url_for_crawling-Queued one_host env roomy (codes "https://x.io/") (2 ^ 31) site_world

abbrev access : TenantAccess
access = record { user = none; role = none; tenant_id = 7 }

abbrev answer : IndexCapacityResponse
answer = record {
  usage_bytes = pos 0;
  max_bytes = pos 20;
  limit_reached = false;
  can_edit_max = true;
  action_id = some 50;
}

abbrev changed_world : World
changed_world = (set_index_capacity env client access state (pos 20) capacity_world).1

changed :
    set_index_capacity env client access state (pos 20) capacity_world ≡ (ok answer, changed_world)
unfolding set_index_capacity can_edit_index_capacity may_edit change_index_capacity
    get_index_capacity_bytes get_index_usage_bytes usage_of get_setting capacity_of setting_value
    set_index_capacity_bytes set_setting upsert_setting record_action insert_action action_text
    entity_text int_to_string decimal digits parse_i64 parse_magnitude parse_digits push_digit ◌+ℤ◌
    select_one exists_row text_eq caught map_failure as_status attempt or_none continue or_raise
    pure now draw_uuid fetch write_if tick ◌>>=◌
changed = refl

set_index_capacity-permitted_example :
    (access.tenant_id ≡ state.default_tenant_id)
    × ((access.user ≡ none) ⊎ (access.role ≡ some owner))
    × (is_positive (pos 20) ≡ true)
    × (capacity_in client changed_world.db ≡ some (pos 20))
set_index_capacity-permitted_example =
    set_index_capacity-permitted env client (pos 20) state access capacity_world changed_world
      answer refl changed
