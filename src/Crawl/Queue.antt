-- ===== src/Crawl/Queue.antt =====
-- lala-agent/src/services/db.rs: the crawl queue, the log of its errors, and the settings.
use lala_search.Prelude.{
  ℕ, ◌+◌, ◌^◌, ◌%◌, Bool, not, ◌&&◌, ◌||◌, Option, none, some, List, [], ◌∷◌, ◌++◌, ◌==◌, ltb, leb,
  if◌then◌else◌,
}
use lala_search.Prelude.Text.{Text, codes, text_eq}
use lala_search.Prelude.Table.{select_one, select_all, exists_row, delete_rows}
use lala_search.Models.Crawl.{CrawlQueueEntry, CrawlError, to_string}
use lala_search.Models.Rows.{CrawlErrorRow, SettingRow}
use lala_search.World.{Env, M, pure, now, draw_uuid, fetch, write, write_if, ◌>>=◌}
use lala_search.AuthDb.Users.{tenant_exists}
use lala_search.AuthService.Config.{minutes}

-- A client is bound to a tenant. `is_dev` is whether the variable ENVIRONMENT says `dev`, and
-- `tenant_index_capacity_bytes` is the variable of that name.
pub record DbClient : Type 0 where
  pub tenant_id : ℕ
  pub is_dev : Bool
  pub tenant_index_capacity_bytes : Option Text

-- WHERE tenant_id = … AND scheduled_at <= now()
abbrev pub is_due : ℕ → ℕ → CrawlQueueEntry → Bool
is_due tenant_id time r = (r.tenant_id == tenant_id) && leb r.scheduled_at time

-- ORDER BY priority, scheduled_at
abbrev pub comes_before : CrawlQueueEntry → CrawlQueueEntry → Bool
comes_before r s =
    ltb r.priority s.priority || ((r.priority == s.priority) && ltb r.scheduled_at s.scheduled_at)

unfoldable pub earlier : CrawlQueueEntry → Option CrawlQueueEntry → CrawlQueueEntry
earlier r none = r
earlier r (some s) = if comes_before s r then s else r

-- LIMIT 1, of the rows in this order
unfoldable pub first_entry : List CrawlQueueEntry → Option CrawlQueueEntry
first_entry [] = none
first_entry (r ∷ rows) = some (earlier r (first_entry rows))

-- The key on which an insertion does nothing.
abbrev pub has_url : ℕ → Text → CrawlQueueEntry → Bool
has_url tenant_id url r = (r.tenant_id == tenant_id) && text_eq r.url url

abbrev pub has_queue_id : ℕ → CrawlQueueEntry → Bool
has_queue_id queue_id r = r.queue_id == queue_id

abbrev pub to_error_row : CrawlError → CrawlErrorRow
to_error_row x = record {
  error_id = x.error_id;
  tenant_id = x.tenant_id;
  page_id = x.page_id;
  domain = x.domain;
  occurred_at = x.occurred_at;
  url = x.url;
  error_type = to_string x.error_type;
  error_message = x.error_message;
  attempt_count = x.attempt_count;
  stack_trace = x.stack_trace;
}

abbrev pub is_setting : ℕ → Text → SettingRow → Bool
is_setting tenant_id key r = (r.tenant_id == tenant_id) && text_eq r.setting_key key

-- INSERT … ON CONFLICT (tenant_id, setting_key) DO UPDATE
unfoldable pub upsert_setting : SettingRow → List SettingRow → List SettingRow
upsert_setting r [] = r ∷ []
upsert_setting r (s ∷ rows) =
    if is_setting r.tenant_id r.setting_key s then r ∷ rows else s ∷ upsert_setting r rows

unfoldable pub setting_value : Option SettingRow → Option Text
setting_value none = none
setting_value (some r) = r.setting_value

unfoldable pub enabled_by : Bool → Option Text → Bool
enabled_by is_dev none = is_dev
enabled_by is_dev (some value) = text_eq value (codes "true")

-- The entry that a retry puts into the queue: 2 ^ attempt_count minutes later and with a lower
-- priority. Both numbers of the source wrap around.
abbrev pub retry_entry : CrawlQueueEntry → ℕ → ℕ → CrawlQueueEntry
retry_entry entry queue_id time = record {
  queue_id = queue_id;
  tenant_id = entry.tenant_id;
  priority = (entry.priority + 1) % 2 ^ 32;
  scheduled_at = time + minutes (2 ^ entry.attempt_count % 2 ^ 64);
  url = entry.url;
  domain = entry.domain;
  last_attempt_at = some time;
  attempt_count = entry.attempt_count + 1;
  created_at = entry.created_at;
}

module _ (e : Env) where
  unfoldable pub insert_queue_entry : CrawlQueueEntry → M (Unit {0})
  insert_queue_entry entry =
      write_if e
        (λ d.
          tenant_exists entry.tenant_id d
          && (exists_row (has_url entry.tenant_id entry.url) d.crawl_queue
              || not (exists_row (has_queue_id entry.queue_id) d.crawl_queue)))
        (λ t d. record d {
          crawl_queue =
              if exists_row (has_url entry.tenant_id entry.url) d.crawl_queue
              then d.crawl_queue
              else d.crawl_queue ++ entry ∷ [];
        })

  unfoldable pub delete_queue_entry : CrawlQueueEntry → M (Unit {0})
  delete_queue_entry entry =
      write e
        (λ t d. record d { crawl_queue = delete_rows (has_queue_id entry.queue_id) d.crawl_queue })

  unfoldable pub log_crawl_error : CrawlError → M (Unit {0})
  log_crawl_error error =
      write_if e
        (λ d.
          tenant_exists error.tenant_id d
          && not (exists_row (λ (r : CrawlErrorRow). r.error_id == error.error_id) d.crawl_errors))
        (λ t d. record d { crawl_errors = d.crawl_errors ++ to_error_row error ∷ [] })

  unfoldable pub requeue_with_retry : CrawlQueueEntry → M (Unit {0})
  requeue_with_retry entry = do
    time ← now e
    queue_id ← draw_uuid e
    insert_queue_entry (retry_entry entry queue_id time)

  module _ (client : DbClient) where
    unfoldable pub get_next_queue_entry : M (Option CrawlQueueEntry)
    get_next_queue_entry = do
      time ← now e
      fetch e (λ d. first_entry (select_all (is_due client.tenant_id time) d.crawl_queue))

    unfoldable pub get_setting : Text → M (Option Text)
    get_setting key =
        fetch e (λ d. setting_value (select_one (is_setting client.tenant_id key) d.settings))

    unfoldable pub set_setting : Text → Text → M (Unit {0})
    set_setting key value =
        write_if e (λ d. tenant_exists client.tenant_id d)
          (λ t d. record d {
            settings =
                upsert_setting
                  (record {
                    tenant_id = client.tenant_id;
                    setting_key = key;
                    setting_value = some value;
                    updated_at = t;
                  })
                  d.settings;
          })

    unfoldable pub is_crawling_enabled : M Bool
    is_crawling_enabled = do
      value ← get_setting (codes "crawling_enabled")
      pure (enabled_by client.is_dev value)

    unfoldable pub set_crawling_enabled : Bool → M (Unit {0})
    set_crawling_enabled enabled =
        set_setting (codes "crawling_enabled") (if enabled then codes "true" else codes "false")
