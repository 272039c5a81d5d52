-- ===== src/Site/Capacity.antt =====
-- lala-agent/src/services/db.rs: how many bytes of documents a tenant has in the search index, and
-- how many it may have.
use lala_search.Prelude.{ℕ, Option, none, some, List, [], ◌∷◌, ◌==◌, if◌then◌else◌, then_some}
use lala_search.Prelude.Text.{Text, codes}
use lala_search.Prelude.Integers.{ℤ, pos, ◌+ℤ◌, in_i64, is_positive, int_to_string, parse_i64}
use lala_search.Models.Pages.{PageRow}
use lala_search.World.{
  Env, M, or_raise, raise, fetch, ◌>>=◌, query_failed, unparsable_number, capacity_not_configured,
  capacity_not_positive,
}
use lala_search.Crawl.Queue.{DbClient, get_setting, set_setting}

abbrev pub index_capacity_setting_key : Text
index_capacity_setting_key = codes "index_capacity_bytes"

abbrev pub bytes_or_none : Option ℤ → ℤ
bytes_or_none none = pos 0
bytes_or_none (some n) = n

-- COALESCE(SUM(indexed_document_bytes), 0) of the tenant's rows; the sum has no bound of its own.
unfoldable pub usage_of : ℕ → List PageRow → ℤ
usage_of tenant_id [] = pos 0
usage_of tenant_id (r ∷ rows) =
    (if r.tenant_id == tenant_id then bytes_or_none r.indexed_document_bytes else pos 0)
    +ℤ usage_of tenant_id rows

module _ (e : Env) (client : DbClient) where
  -- A sum that is no BIGINT is an error of the query.
  unfoldable pub get_index_usage_bytes : M ℤ
  get_index_usage_bytes = do
    usage ← fetch e (λ d. usage_of client.tenant_id d.site.crawled_pages)
    or_raise query_failed (then_some (in_i64 usage) usage)

  unfoldable pub configured_capacity : Option Text → M ℤ
  configured_capacity none = raise capacity_not_configured
  configured_capacity (some value) = or_raise unparsable_number (parse_i64 value)

  unfoldable pub capacity_of : Option Text → M ℤ
  unfolding configured_capacity
  capacity_of none = configured_capacity client.tenant_index_capacity_bytes
  capacity_of (some value) = or_raise unparsable_number (parse_i64 value)

  unfoldable pub get_index_capacity_bytes : M ℤ
  get_index_capacity_bytes = do
    value ← get_setting e client index_capacity_setting_key
    capacity_of value

  unfoldable pub set_index_capacity_bytes : ℤ → M (Unit {0})
  set_index_capacity_bytes max_bytes =
      if is_positive max_bytes
      then set_setting e client index_capacity_setting_key (int_to_string max_bytes)
      else raise capacity_not_positive
