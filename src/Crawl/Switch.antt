-- ===== src/Crawl/Switch.antt =====
-- The switch that stops the crawling of a tenant.
use lala_search.Prelude.{◌≡◌, refl, ◌≢◌, Bool, true, false, Option, some, List, [], ◌∷◌, arith}
use lala_search.Prelude.Text.{Text, codes, text_eq, text_eq_refl}
use lala_search.Prelude.Table.{select_one}
use lala_search.Models.Rows.{SettingRow}
use lala_search.World.{World, Env, ok, tick, pure, fetch, ◌>>=◌}
use lala_search.World.Success.{write_if-eq-ok}
use lala_search.Crawl.Queue.{
  DbClient, is_setting, upsert_setting, setting_value, enabled_by, get_setting, set_setting,
  is_crawling_enabled, set_crawling_enabled,
}
use lala_search.Crawl.Process.{Url, Stages, process_next_entry}

select_one-upsert_setting :
    (r : SettingRow) (rows : List SettingRow)
    → select_one (is_setting r.tenant_id r.setting_key) (upsert_setting r rows) ≡ some r
unfolding select_one upsert_setting
select_one-upsert_setting r [] = ground (arith, text_eq_refl r.setting_key)
select_one-upsert_setting r (s ∷ rows) =
    ground (arith, text_eq_refl r.setting_key, select_one-upsert_setting r rows)

module _ (e : Env) (client : DbClient) where
  pub setting-set_setting :
      (key value : Text) (w w₁ : World)
      → set_setting e client key value w ≡ (ok tt, w₁)
      → setting_value (select_one (is_setting client.tenant_id key) w₁.settings) ≡ some value
  unfolding set_setting setting_value
  setting-set_setting key value w w₁ done =
      let (_, written) = write_if-eq-ok e _ _ w done in
      let r : SettingRow = record {
        tenant_id = client.tenant_id;
        setting_key = key;
        setting_value = some value;
        updated_at = e.clock w.steps;
      } in
      rw (written, select_one-upsert_setting r w.settings) refl

  enabled_after :
      (enabled : Bool) (w w₁ : World)
      → set_crawling_enabled e client enabled w ≡ (ok tt, w₁)
      → enabled_by client.is_dev (
          setting_value
            (select_one (is_setting client.tenant_id (codes "crawling_enabled")) w₁.settings))
        ≡ enabled
  unfolding set_crawling_enabled enabled_by text_eq
  enabled_after true w w₁ done = rw (setting-set_setting _ _ w w₁ done) refl
  enabled_after false w w₁ done = rw (setting-set_setting _ _ w w₁ done) refl

  -- After the switch was set, and while the database answers, it reads as it was set, whatever the
  -- environment's default is.
  pub set_crawling_enabled-is_crawling_enabled :
      (enabled : Bool) (w w₁ : World)
      → set_crawling_enabled e client enabled w ≡ (ok tt, w₁)
      → e.query_fails w₁.steps ≡ false
      → (is_crawling_enabled e client w₁).0 ≡ ok enabled
  unfolding is_crawling_enabled get_setting ◌>>=◌ fetch pure tick
  set_crawling_enabled-is_crawling_enabled enabled w w₁ done answers =
      ground (arith, answers, enabled_after enabled w w₁ done)

  -- After crawling was switched off, `process_next_entry` processes nothing and changes nothing in
  -- the database, whatever its stages are and whether the database answers or not.
  pub set_crawling_enabled-process_next_entry :
      (parse_url : Text → Option Url) (stages : Stages) (w w₁ : World)
      → set_crawling_enabled e client false w ≡ (ok tt, w₁)
      → ((process_next_entry e client parse_url stages w₁).0 ≢ ok true)
        × ((process_next_entry e client parse_url stages w₁).1.db ≡ w₁.db)
  unfolding process_next_entry is_crawling_enabled get_setting ◌>>=◌ fetch pure tick
  set_crawling_enabled-process_next_entry parse_url stages w w₁ done =
      (ground (arith, enabled_after false w w₁ done), ground (arith, enabled_after false w w₁ done))
