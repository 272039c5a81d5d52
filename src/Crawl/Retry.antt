-- ===== src/Crawl/Retry.antt =====
-- What becomes of an entry whose crawl failed.
use lala_search.Prelude.{
  ℕ, zero, ◌+◌, ◌<◌, ◌≤◌, ◌^◌, ◌%◌, suc, ◌≡◌, refl, ◌≢◌, ◌⊎◌, ap, true, false, Option, [], ◌∷◌,
  ◌++◌, arith,
}
use lala_search.Prelude.Text.{Text}
use lala_search.Prelude.Table.{exists_row}
use lala_search.Models.Crawl.{
  CrawlQueueEntry, CrawlErrorType, fetch_error, storage_error, database_error, search_index_error,
  robots_disallowed, invalid_url, unknown,
}
use lala_search.World.{World, Env, tick, pure, ignore, now, draw_uuid, write_if, ◌>>=◌}
use lala_search.AuthDb.Users.{tenant_exists}
use lala_search.AuthService.Config.{minutes}
use lala_search.Crawl.Queue.{
  DbClient, has_url, has_queue_id, retry_entry, insert_queue_entry, log_crawl_error,
  requeue_with_retry,
}
use lala_search.Crawl.Process.{Url, should_retry, handle_crawl_failure}

-- An error that a retry may mend.
abbrev pub IsTransient : CrawlErrorType → Type 0
IsTransient t = (t ≢ robots_disallowed) × (t ≢ invalid_url)

should_retry_iff :
    (t : CrawlErrorType) (entry : CrawlQueueEntry)
    → IsTransient t
    → entry.attempt_count < 5
    → should_retry t entry ≡ true
unfolding should_retry
should_retry_iff fetch_error entry h k = ground arith
should_retry_iff storage_error entry h k = ground arith
should_retry_iff database_error entry h k = ground arith
should_retry_iff search_index_error entry h k = ground arith
should_retry_iff robots_disallowed entry (p, _) k = absurd (p refl)
should_retry_iff invalid_url entry (_, p) k = absurd (p refl)
should_retry_iff unknown entry h k = ground arith

-- No power of the source wraps around for an entry that is retried.
backoff : (n : ℕ) → n < 5 → (2 ^ n) % 2 ^ 64 ≡ 2 ^ n
backoff zero h = refl
backoff (suc zero) h = refl
backoff (suc (suc zero)) h = refl
backoff (suc (suc (suc zero))) h = refl
backoff (suc (suc (suc (suc zero)))) h = refl
backoff (suc (suc (suc (suc (suc n))))) h = absurd (omega (arith, h))

module _ (e : Env) (client : DbClient) (parse_url : Text → Option Url) where
  module _ (entry : CrawlQueueEntry) (error_type : CrawlErrorType) (message : Text)
      (w : World) where
    queue-handled :
        ((n : ℕ) → e.query_fails n ≡ false)
        → should_retry error_type entry ≡ true
        → tenant_exists entry.tenant_id w.db ≡ true
        → exists_row (has_url entry.tenant_id entry.url) w.crawl_queue ≡ false
        → exists_row (has_queue_id (e.uuid (suc w.uuids_drawn))) w.crawl_queue ≡ false
        → (handle_crawl_failure e client parse_url entry error_type message w).1.crawl_queue
          ≡ w.crawl_queue
            ++ retry_entry entry (e.uuid (suc w.uuids_drawn)) (e.clock (suc w.steps)) ∷ []
    unfolding handle_crawl_failure log_crawl_error requeue_with_retry insert_queue_entry ◌>>=◌
        ignore now draw_uuid write_if tick pure
    queue-handled reliable again tenant unqueued fresh =
        ground (arith, reliable w.steps, reliable (suc w.steps), again, tenant, unqueued, fresh)

    queue-refused :
        should_retry error_type entry ≡ false
        → (handle_crawl_failure e client parse_url entry error_type message w).1.crawl_queue
          ≡ w.crawl_queue
    unfolding handle_crawl_failure log_crawl_error requeue_with_retry insert_queue_entry ◌>>=◌
        ignore now draw_uuid write_if tick pure
    queue-refused never = ground (arith, never)

  -- When the error is transient and the entry has been tried fewer than five times before, the URL
  -- goes back to the end of the table, for 2 ^ attempt_count minutes later, with one attempt more
  -- and a priority number one larger (wrapping around at 32 bits). It takes that the database
  -- answers, that the tenant is there, that the URL has not been queued again meanwhile, and that
  -- the new identifier is fresh.
  pub handle_crawl_failure-retries :
      (entry : CrawlQueueEntry) (error_type : CrawlErrorType) (message : Text) (w : World)
      → IsTransient error_type
      → entry.attempt_count < 5
      → ((n : ℕ) → e.query_fails n ≡ false)
      → tenant_exists entry.tenant_id w.db ≡ true
      → exists_row (has_url entry.tenant_id entry.url) w.crawl_queue ≡ false
      → exists_row (has_queue_id (e.uuid (suc w.uuids_drawn))) w.crawl_queue ≡ false
      → (r : CrawlQueueEntry) × ((handle_crawl_failure e client parse_url entry error_type message
            w).1.crawl_queue
          ≡ w.crawl_queue ++ r ∷ [])
        × (r.url ≡ entry.url)
        × (r.tenant_id ≡ entry.tenant_id)
        × (r.attempt_count ≡ entry.attempt_count + 1)
        × (r.scheduled_at ≡ e.clock (suc w.steps) + minutes (2 ^ entry.attempt_count))
        × (r.priority ≡ (entry.priority + 1) % 2 ^ 32)
  handle_crawl_failure-retries entry error_type message w transient few reliable tenant unqueued
        fresh =
      (
        retry_entry entry (e.uuid (suc w.uuids_drawn)) (e.clock (suc w.steps)),
        queue-handled entry error_type message w reliable
            (should_retry_iff error_type entry transient few) tenant unqueued fresh,
        refl,
        refl,
        refl,
        ap (λ n. e.clock (suc w.steps) + minutes n) (backoff entry.attempt_count few),
        refl,
      )

  never_again :
      (t : CrawlErrorType) (entry : CrawlQueueEntry)
      → ((t ≡ robots_disallowed) ⊎ (t ≡ invalid_url)) ⊎ (5 ≤ entry.attempt_count)
      → should_retry t entry ≡ false
  unfolding should_retry
  never_again fetch_error entry h = ground (arith, h)
  never_again storage_error entry h = ground (arith, h)
  never_again database_error entry h = ground (arith, h)
  never_again search_index_error entry h = ground (arith, h)
  never_again robots_disallowed entry h = refl
  never_again invalid_url entry h = refl
  never_again unknown entry h = ground (arith, h)

  -- A URL that robots.txt forbids or that is invalid, and one that has been tried five times before,
  -- is given up: the queue stays as it is, whatever fails.
  pub handle_crawl_failure-gives_up :
      (entry : CrawlQueueEntry) (error_type : CrawlErrorType) (message : Text) (w : World)
      → ((error_type ≡ robots_disallowed) ⊎ (error_type ≡ invalid_url)) ⊎ (5 ≤ entry.attempt_count)
      → (handle_crawl_failure e client parse_url entry error_type message w).1.crawl_queue
        ≡ w.crawl_queue
  handle_crawl_failure-gives_up entry error_type message w h =
      queue-refused entry error_type message w (never_again error_type entry h)
