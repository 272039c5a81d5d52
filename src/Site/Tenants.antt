-- ===== src/Site/Tenants.antt =====
-- lala-agent/src/services/db.rs: the rows of tenants.
use lala_search.Prelude.{ℕ, Bool, ◌&&◌, List, [], ◌∷◌, ◌++◌, map, ◌==◌, is_none, if◌then◌else◌}
use mathlib.Core.Option
use lala_search.Prelude.Text.{Text}
use lala_search.Prelude.Table.{select_one, select_all, update_rows}
use lala_search.Models.Rows.{TenantRow}
use lala_search.World.{Env, M, or_raise, query_failed, fetch, write, ◌>>=◌}
use lala_search.AuthDb.Users.{tenant_exists, new_tenant}
use lala_search.Crawl.Queue.{DbClient}

abbrev pub is_active_tenant : ℕ → TenantRow → Bool
is_active_tenant tenant_id r = (r.tenant_id == tenant_id) && is_none r.deleted_at

unfoldable pub with_tenant : DbClient → ℕ → DbClient
with_tenant client tenant_id = record client { tenant_id = tenant_id }

module _ (e : Env) where
  unfoldable pub ensure_default_tenant : ℕ → Text → M (Unit {0})
  ensure_default_tenant tenant_id name = write e (λ t d. record d {
    tenants =
        if tenant_exists tenant_id d
        then d.tenants
        else d.tenants ++ new_tenant tenant_id name t ∷ [];
  })

  unfoldable pub list_tenant_ids : M (List ℕ)
  list_tenant_ids = fetch e (λ d.
      map (λ (r : TenantRow). r.tenant_id)
        (select_all (λ (r : TenantRow). is_none r.deleted_at) d.tenants))

  module _ (client : DbClient) where
    unfoldable pub update_tenant_name : Text → M (Unit {0})
    update_tenant_name name = write e (λ t d. record d {
      tenants =
          update_rows (is_active_tenant client.tenant_id) (λ r. record r { name = name }) d.tenants;
    })

    -- A row that is missing is a failure of the query.
    unfoldable pub get_tenant_name : M Text
    get_tenant_name = do
      name ← fetch e (λ d.
          Option.map (λ (r : TenantRow). r.name)
            (select_one (is_active_tenant client.tenant_id) d.tenants))
      or_raise query_failed name
