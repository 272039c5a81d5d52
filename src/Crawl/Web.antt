-- ===== src/Crawl/Web.antt =====
-- What the queue processor (lala-agent/src/services/queue_processor.rs) uses of code that is not its
-- own: the crates `url`, `scraper`, `md5` and `serde_json`, the page's fetch (`crawl_url`), the search
-- server and the object storage; and `extract_title`, which cuts a title out of HTML.
use lala_search.Prelude.{ℕ, Bool, Option, List}
use lala_search.Prelude.Text.{Text}
use lala_search.Models.Search.{IndexedDocument}
use lala_search.World.{Failure, Result}
use lala_search.Crawl.Process.{Url}
use lala_search.Crawl.Queue.{DbClient}

-- lala-agent/src/models/crawler.rs
pub record CrawlResult : Type 0 where
  pub url : Text
  pub allowed_by_robots : Bool
  pub content : Option Text
  pub error : Option Text
  pub x_robots_tag : Option Text

-- An element `a[href]`, with its attributes
pub record Anchor : Type 0 where
  pub rel : Option Text
  pub href : Text

-- An element `meta[name]`, with its attributes
pub record Meta : Type 0 where
  pub name : Text
  pub content : Option Text

-- `crawl_url` gives a result or fails with a message, at each step what it gives then; `display` is
-- the text of an error; `timestamp` is the seconds of a time.
pub record Web : Type 0 where
  pub parse_url : Text → Option Url
  pub join_url : Text → Text → Option Text
  pub anchors : Text → List Anchor
  pub metas : Text → List Meta
  pub text_nodes : Text → List Text
  pub extract_title : Text → Option Text
  pub md5_hex : Text → Text
  pub json_len : IndexedDocument → ℕ
  pub display : Failure → Text
  pub timestamp : ℕ → ℕ
  pub crawl_url : Text → Text → ℕ → Result CrawlResult

-- The search server fails at some steps.
pub record SearchClient : Type 0 where
  pub index_fails : ℕ → Bool

-- lala-agent/src/services/storage.rs; the compression and the server fail at some steps.
pub record StorageClient : Type 0 where
  pub compress_content : Bool
  pub compress_min_size : ℕ
  pub compress_fails : ℕ → Bool
  pub put_fails : ℕ → Bool

-- The fields of `QueueProcessor` but for the interval of its polling
pub record QueueProcessor : Type 0 where
  pub db_client : DbClient
  pub search_client : Option SearchClient
  pub storage_client : Option StorageClient
  pub user_agent : Text
  pub tenant_id : Option Text
