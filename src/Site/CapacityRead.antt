-- ===== src/Site/CapacityRead.antt =====
-- A capacity that was stored is read back.
use lala_search.Prelude.{◌≡◌, refl, true, false, some}
use lala_search.Prelude.Integers.{ℤ, in_i64, is_positive, int_to_string}
use lala_search.Prelude.Integers.Decimal.{parse_i64-int_to_string}
use lala_search.World.{World, Env, ok, or_raise, fetch, tick, ◌>>=◌}
use lala_search.World.Success.{if-raise-eq-ok}
use lala_search.Crawl.Queue.{DbClient, get_setting}
use lala_search.Crawl.Switch.{setting-set_setting}
use lala_search.Site.Capacity.{
  index_capacity_setting_key, capacity_of, get_index_capacity_bytes, set_index_capacity_bytes,
}

module _ (e : Env) (client : DbClient) where
  capacity_of-int_to_string :
      (n : ℤ) (w : World)
      → in_i64 n ≡ true
      → (capacity_of e client (some (int_to_string n)) w).0 ≡ ok n
  unfolding capacity_of or_raise
  capacity_of-int_to_string n w h = rw (parse_i64-int_to_string n h) refl

  -- A capacity that was stored was positive, and while the database answers it is read as the same
  -- number, whatever the environment's default is.
  pub set_index_capacity_bytes-get_index_capacity_bytes :
      (max_bytes : ℤ) (w w₁ : World)
      → in_i64 max_bytes ≡ true
      → set_index_capacity_bytes e client max_bytes w ≡ (ok tt, w₁)
      → e.query_fails w₁.steps ≡ false
      → (is_positive max_bytes ≡ true) × ((get_index_capacity_bytes e client w₁).0 ≡ ok max_bytes)
  unfolding set_index_capacity_bytes get_index_capacity_bytes get_setting ◌>>=◌ fetch
  set_index_capacity_bytes-get_index_capacity_bytes max_bytes w w₁ h done answers =
      let (positive, stored) = if-raise-eq-ok (is_positive max_bytes) _ _ w done in
      (
        positive,
        (rw
            (
              answers,
              setting-set_setting e client index_capacity_setting_key (int_to_string max_bytes) w w₁
                  stored,
            )
            (capacity_of-int_to_string max_bytes (tick w₁) h)),
      )
