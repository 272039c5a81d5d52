-- ===== src/Site/Pages.antt =====
-- lala-agent/src/services/db.rs: the pages that a tenant's crawler has fetched.
use lala_search.Prelude.{ℕ, Bool, not, ◌&&◌, ◌||◌, Option, some, List, map, ◌==◌, ltb}
use mathlib.Core.Option
use lala_search.Prelude.Text.{Text, text_eq}
use lala_search.Prelude.Integers.{ℤ, pos, negsuc}
use lala_search.Prelude.Table.{
  select_one, select_all, exists_row, upsert_row, delete_rows, order_rows, limit_rows,
}
use lala_search.Models.Pages.{CrawledPage, PageRow, to_db_value, from_db_value}
use lala_search.World.{Database, Env, M, raise, query_failed, fetch, write, write_if}
use lala_search.AuthDb.Users.{tenant_exists}
use lala_search.Crawl.Queue.{DbClient}

abbrev pub is_page : ℕ → Text → Text → PageRow → Bool
is_page tenant_id domain url_path r =
    (r.tenant_id == tenant_id) && text_eq r.domain domain && text_eq r.url_path url_path

abbrev pub set_crawled_pages : (List PageRow → List PageRow) → Database → Database
set_crawled_pages f d = record d {
  site = record (d.site) { crawled_pages = f d.site.crawled_pages };
}

abbrev pub to_page_row : CrawledPage → PageRow
to_page_row page = record {
  page_id = page.page_id;
  tenant_id = page.tenant_id;
  domain = page.domain;
  url_path = page.url_path;
  url = page.url;
  storage_id = page.storage_id;
  storage_compression = to_db_value page.storage_compression;
  last_crawled_at = page.last_crawled_at;
  next_crawl_at = page.next_crawl_at;
  crawl_frequency_hours = page.crawl_frequency_hours;
  http_status = page.http_status;
  content_hash = page.content_hash;
  content_length = page.content_length;
  indexed_document_bytes = page.indexed_document_bytes;
  robots_allowed = page.robots_allowed;
  error_message = page.error_message;
  crawl_count = page.crawl_count;
  created_at = page.created_at;
  updated_at = page.updated_at;
}

abbrev pub to_page : PageRow → CrawledPage
to_page r = record {
  page_id = r.page_id;
  tenant_id = r.tenant_id;
  domain = r.domain;
  url_path = r.url_path;
  url = r.url;
  storage_id = r.storage_id;
  storage_compression = from_db_value (some r.storage_compression);
  last_crawled_at = r.last_crawled_at;
  next_crawl_at = r.next_crawl_at;
  crawl_frequency_hours = r.crawl_frequency_hours;
  http_status = r.http_status;
  content_hash = r.content_hash;
  content_length = r.content_length;
  indexed_document_bytes = r.indexed_document_bytes;
  robots_allowed = r.robots_allowed;
  error_message = r.error_message;
  crawl_count = r.crawl_count;
  created_at = r.created_at;
  updated_at = r.updated_at;
}

-- DO UPDATE SET: the identity, the URL and the time of creation stay.
abbrev pub update_page : CrawledPage → PageRow → PageRow
update_page page r = record r {
  storage_id = page.storage_id;
  storage_compression = to_db_value page.storage_compression;
  last_crawled_at = page.last_crawled_at;
  next_crawl_at = page.next_crawl_at;
  crawl_frequency_hours = page.crawl_frequency_hours;
  http_status = page.http_status;
  content_hash = page.content_hash;
  content_length = page.content_length;
  indexed_document_bytes = page.indexed_document_bytes;
  robots_allowed = page.robots_allowed;
  error_message = page.error_message;
  crawl_count = page.crawl_count;
  updated_at = page.updated_at;
}

-- What `get_recent_crawled_pages` reads of a row
pub record RecentPage : Type 0 where
  pub url : Text
  pub http_status : ℤ
  pub content_length : ℤ
  pub last_crawled_at : ℕ

abbrev pub to_recent_page : PageRow → RecentPage
to_recent_page r = record {
  url = r.url;
  http_status = r.http_status;
  content_length = r.content_length;
  last_crawled_at = r.last_crawled_at;
}

module _ (e : Env) where
  unfoldable pub upsert_crawled_page : CrawledPage → M (Unit {0})
  upsert_crawled_page page =
      write_if e
        (λ d.
          tenant_exists page.tenant_id d
          && (exists_row (is_page page.tenant_id page.domain page.url_path) d.site.crawled_pages
              || not
                  (exists_row (λ (r : PageRow). r.page_id == page.page_id) d.site.crawled_pages)))
        (λ t. set_crawled_pages (
          upsert_row (is_page page.tenant_id page.domain page.url_path) (update_page page)
            (to_page_row page)))

  module _ (client : DbClient) where
    unfoldable pub delete_crawled_page : Text → Text → M (Unit {0})
    delete_crawled_page domain url_path =
        write e (λ t. set_crawled_pages (delete_rows (is_page client.tenant_id domain url_path)))

    unfoldable pub crawled_page_exists : Text → Text → M Bool
    crawled_page_exists domain url_path =
        fetch e (λ d. exists_row (is_page client.tenant_id domain url_path) d.site.crawled_pages)

    unfoldable pub get_crawled_page : Text → Text → M (Option CrawledPage)
    get_crawled_page domain url_path = fetch e (λ d.
        Option.map to_page
          (select_one (is_page client.tenant_id domain url_path) d.site.crawled_pages))

    -- A negative LIMIT is an error of the query.
    unfoldable pub get_recent_crawled_pages : Text → ℤ → M (List RecentPage)
    get_recent_crawled_pages domain (negsuc n) = raise query_failed
    get_recent_crawled_pages domain (pos limit) = fetch e (λ d. map to_recent_page (
        limit_rows limit (
          order_rows (λ (r s : PageRow). ltb s.last_crawled_at r.last_crawled_at)
            (select_all (λ r. (r.tenant_id == client.tenant_id) && text_eq r.domain domain)
              d.site.crawled_pages))))
