-- ===== src/Models/Pages.antt =====
-- lala-agent/src/models/storage.rs and models/db.rs: the pages that were crawled. The integers of a
-- page are signed; the compression is a small number in the table.
use lala_search.Prelude.{ℕ, ◌≡◌, refl, Bool, Option, none, some, ◌==◌, if◌then◌else◌}
use lala_search.Prelude.Text.{Text, codes}
use lala_search.Prelude.Integers.{ℤ}

pub data CompressionType : Type 0 where
  uncompressed gzip : CompressionType

unfoldable pub file_extension : CompressionType → Text
file_extension uncompressed = codes "html"
file_extension gzip = codes "html.gz"

unfoldable pub content_type : CompressionType → Text
content_type uncompressed = codes "text/html"
content_type gzip = codes "application/gzip"

unfoldable pub to_db_value : CompressionType → ℕ
to_db_value uncompressed = 0
to_db_value gzip = 1

unfoldable pub from_db_value : Option ℕ → CompressionType
from_db_value none = uncompressed
from_db_value (some value) = if value == 1 then gzip else uncompressed

pub from_db_value-to_db_value : (t : CompressionType) → from_db_value (some (to_db_value t)) ≡ t
unfolding from_db_value to_db_value
from_db_value-to_db_value uncompressed = refl
from_db_value-to_db_value gzip = refl

pub record CrawledPage : Type 0 where
  pub page_id : ℕ
  pub tenant_id : ℕ
  pub domain : Text
  pub url_path : Text
  pub url : Text
  pub storage_id : Option ℕ
  pub storage_compression : CompressionType
  pub last_crawled_at : ℕ
  pub next_crawl_at : ℕ
  pub crawl_frequency_hours : ℤ
  pub http_status : ℤ
  pub content_hash : Text
  pub content_length : ℤ
  pub indexed_document_bytes : Option ℤ
  pub robots_allowed : Bool
  pub error_message : Option Text
  pub crawl_count : ℤ
  pub created_at : ℕ
  pub updated_at : ℕ

-- A row of `crawled_pages`
pub record PageRow : Type 0 where
  pub page_id : ℕ
  pub tenant_id : ℕ
  pub domain : Text
  pub url_path : Text
  pub url : Text
  pub storage_id : Option ℕ
  pub storage_compression : ℕ
  pub last_crawled_at : ℕ
  pub next_crawl_at : ℕ
  pub crawl_frequency_hours : ℤ
  pub http_status : ℤ
  pub content_hash : Text
  pub content_length : ℤ
  pub indexed_document_bytes : Option ℤ
  pub robots_allowed : Bool
  pub error_message : Option Text
  pub crawl_count : ℤ
  pub created_at : ℕ
  pub updated_at : ℕ
