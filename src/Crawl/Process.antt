-- ===== src/Crawl/Process.antt =====
-- lala-agent/src/services/queue_processor.rs: the processing of one entry of the queue. The stages
-- of a crawl (`process_crawl_entry`) are a parameter, an action that ends in success or in an
-- error type and a message; `parse_url` is `url::Url::parse`.
use lala_search.Prelude.{ℕ, ◌+◌, Bool, true, false, Option, none, some, ltb, ◌++◌, if◌then◌else◌}
use lala_search.Prelude.Text.{Text, codes}
use lala_search.Models.Crawl.{
  CrawlQueueEntry, CrawlErrorType, robots_disallowed, invalid_url, CrawlError,
}
use lala_search.World.{World, Env, M, ok, pure, ignore, now, draw_uuid, ◌>>=◌, ◌>>◌}
use lala_search.Crawl.Queue.{
  DbClient, get_next_queue_entry, delete_queue_entry, log_crawl_error, requeue_with_retry,
  is_crawling_enabled,
}

-- What is used of a `url::Url`: `host_str`, `port` in decimal digits, and `path`.
pub record Url : Type 0 where
  pub host_str : Option Text
  pub port : Option Text
  pub path : Text

abbrev pub host_of : Option Text → Text
host_of none = codes ""
host_of (some host) = host

abbrev pub with_port : Text → Option Text → Text
with_port host none = host
with_port host (some port) = host ++ codes ":" ++ port

unfoldable pub extract_domain : Url → Text
extract_domain url = with_port (host_of url.host_str) url.port

-- The domain that a failure is logged under.
unfoldable pub failure_domain : CrawlQueueEntry → Option Url → Text
unfolding extract_domain
failure_domain entry none = entry.domain
failure_domain entry (some url) = extract_domain url

abbrev pub max_retry_attempts : ℕ
max_retry_attempts = 5

unfoldable pub should_retry : CrawlErrorType → CrawlQueueEntry → Bool
should_retry robots_disallowed entry = false
should_retry invalid_url entry = false
should_retry _ entry = ltb entry.attempt_count max_retry_attempts

-- The end of a crawl: `Ok(())`, or the type of the error and its message.
pub data Outcome : Type 0 where
  crawled : Outcome
  failed : CrawlErrorType → Text → Outcome

abbrev pub Stages : Type 0
Stages = CrawlQueueEntry → World → Outcome × World

module _ (e : Env) (client : DbClient) (parse_url : Text → Option Url) where
  abbrev pub crawl_error : CrawlQueueEntry → CrawlErrorType → Text → ℕ → ℕ → CrawlError
  crawl_error entry error_type error_message error_id time = record {
    error_id = error_id;
    tenant_id = client.tenant_id;
    page_id = none;
    domain = failure_domain entry (parse_url entry.url);
    occurred_at = time;
    url = entry.url;
    error_type = error_type;
    error_message = error_message;
    attempt_count = entry.attempt_count + 1;
    stack_trace = none;
  }

  unfoldable pub handle_crawl_failure : CrawlQueueEntry → CrawlErrorType → Text → M (Unit {0})
  handle_crawl_failure entry error_type error_message = do
    time ← now e
    error_id ← draw_uuid e
    ignore (log_crawl_error e (crawl_error entry error_type error_message error_id time))
    if should_retry error_type entry then ignore (requeue_with_retry e entry) else pure tt

  -- What follows the crawl: an entry counts as processed even when it failed.
  unfoldable pub conclude : CrawlQueueEntry → Outcome → M Bool
  conclude entry crawled = pure true
  conclude entry (failed error_type error_message) = do
    handle_crawl_failure entry error_type error_message
    pure true

  unfoldable pub run_stages : Stages → CrawlQueueEntry → M Outcome
  run_stages stages entry w = let (outcome, w') = stages entry w in (ok outcome, w')

  unfoldable pub process_found : Stages → Option CrawlQueueEntry → M Bool
  process_found stages none = pure false
  process_found stages (some entry) = do
    delete_queue_entry e entry
    outcome ← run_stages stages entry
    conclude entry outcome

  unfoldable pub process_due : Stages → M Bool
  process_due stages = do found ← get_next_queue_entry e client; process_found stages found

  unfoldable pub process_next_entry : Stages → M Bool
  process_next_entry stages = do
    enabled ← is_crawling_enabled e client
    if enabled then process_due stages else pure false
