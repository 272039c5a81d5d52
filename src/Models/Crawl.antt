-- ===== src/Models/Crawl.antt =====
-- lala-agent/src/models/db.rs: what the crawl queue and its log hold. An `i32` priority is held as
-- the number that is larger by 2 ^ 31, which keeps the order.
use lala_search.Prelude.{ℕ, Option, ◌≡◌, refl, if◌then◌else◌}
use lala_search.Prelude.Text.{Text, codes, text_eq}

pub record CrawlQueueEntry : Type 0 where
  pub queue_id : ℕ
  pub tenant_id : ℕ
  pub priority : ℕ
  pub scheduled_at : ℕ
  pub url : Text
  pub domain : Text
  pub last_attempt_at : Option ℕ
  pub attempt_count : ℕ
  pub created_at : ℕ

pub data CrawlErrorType : Type 0 where
  fetch_error storage_error database_error search_index_error : CrawlErrorType
  robots_disallowed invalid_url unknown : CrawlErrorType

-- `fmt::Display`
unfoldable pub to_string : CrawlErrorType → Text
to_string fetch_error = codes "fetch_error"
to_string storage_error = codes "storage_error"
to_string database_error = codes "database_error"
to_string search_index_error = codes "search_index_error"
to_string robots_disallowed = codes "robots_disallowed"
to_string invalid_url = codes "invalid_url"
to_string unknown = codes "unknown"

unfoldable pub parse : Text → CrawlErrorType
parse s =
    if text_eq s (codes "fetch_error")
    then fetch_error
    else if text_eq s (codes "storage_error")
    then storage_error
    else if text_eq s (codes "database_error")
    then database_error
    else if text_eq s (codes "search_index_error")
    then search_index_error
    else if text_eq s (codes "robots_disallowed")
    then robots_disallowed
    else if text_eq s (codes "invalid_url")
    then invalid_url
    else unknown

-- What is logged of a failure comes back from the log.
pub parse-to_string : (t : CrawlErrorType) → parse (to_string t) ≡ t
unfolding parse to_string text_eq
parse-to_string fetch_error = refl
parse-to_string storage_error = refl
parse-to_string database_error = refl
parse-to_string search_index_error = refl
parse-to_string robots_disallowed = refl
parse-to_string invalid_url = refl
parse-to_string unknown = refl

pub record CrawlError : Type 0 where
  pub error_id : ℕ
  pub tenant_id : ℕ
  pub page_id : Option ℕ
  pub domain : Text
  pub occurred_at : ℕ
  pub url : Text
  pub error_type : CrawlErrorType
  pub error_message : Text
  pub attempt_count : ℕ
  pub stack_trace : Option Text
