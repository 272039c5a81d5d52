-- ===== src/Crawl/Stages.antt =====
-- lala-agent/src/services/queue_processor.rs: the stages of the crawl of one entry.
use lala_search.Prelude.{
  ℕ, ◌+◌, ◌*◌, not, ◌&&◌, ◌||◌, Option, none, some, List, [], ◌∷◌, ◌++◌, unwrap_or, ltb, is_some,
  if◌then◌else◌,
}
use lala_search.Prelude.Text.{Text, codes, trim, is_empty_text, byte_len, squeeze, split_at}
use lala_search.Prelude.Integers.{ℤ, pos, as_i32, succ_i32}
use lala_search.Models.Crawl.{
  CrawlQueueEntry, CrawlErrorType, fetch_error, storage_error, database_error, search_index_error,
  robots_disallowed, unknown,
}
use lala_search.Models.Pages.{CompressionType, uncompressed, gzip, CrawledPage}
use lala_search.Models.Search.{IndexedDocument}
use lala_search.World.{
  World, Result, ok, err, Env, M, pure, raise, or_raise, ignore, attempt, map_failure, now,
  draw_uuid, tick, call_out, ◌>>=◌, ◌>>◌, search_failed, storage_failed, unparsable_url,
  crawl_failed,
}
use lala_search.AuthService.Config.{minutes}
use lala_search.Crawl.Process.{Url, extract_domain, Outcome, crawled, failed}
use lala_search.Crawl.Web.{CrawlResult, Web, SearchClient, StorageClient, QueueProcessor}
use lala_search.Crawl.Robots.{RobotsMetaDirectives, get_robots_directives}
use lala_search.Crawl.Links.{enqueue_meet_links}
use lala_search.Site.Pages.{get_crawled_page, upsert_crawled_page}

-- The text nodes, each trimmed and after a blank
unfoldable pub text_of_nodes : List Text → Text
text_of_nodes [] = []
text_of_nodes (node ∷ nodes) =
    let rest = text_of_nodes nodes in
    if is_empty_text (trim node) then rest else b' ' ∷ trim node ++ rest

-- The first 500 characters, with dots if there are more
unfoldable pub build_excerpt : Text → Text
build_excerpt clean_content =
    let (front, back) = split_at 500 clean_content in
    if is_empty_text back then clean_content else front ++ codes "..."

-- What is assumed of the HTTP status
unfoldable pub http_status_of : CrawlResult → ℤ
http_status_of result =
    if result.allowed_by_robots
    then if is_some result.content then pos 200 else pos 500
    else pos 403

-- `index_document` of the search client: the document is given to the server.
unfoldable pub index_document : SearchClient → IndexedDocument → M (Unit {0})
unfolding tick
index_document search_client document w =
    if search_client.index_fails w.steps
    then (err search_failed, tick w)
    else (ok tt, tick (record w { indexed = w.indexed ++ document ∷ [] }))

-- What ends the crawl, by the outcome of its stages
unfoldable pub to_outcome : Result (Unit {0}) → Outcome
to_outcome (ok u) = crawled
to_outcome (err (crawl_failed error_type message)) = failed error_type message
to_outcome (err x) = failed unknown (codes "")

module _ (web : Web) where
  unfoldable pub remove_html_tags : Text → Text
  unfolding text_of_nodes
  remove_html_tags html = squeeze (text_of_nodes (web.text_nodes html))

  -- `map_err(|e| (error_type, format!("{prefix}: {e}")))`
  unfoldable pub as_crawl_failure : {A : Type 0} → CrawlErrorType → Text → M A → M A
  as_crawl_failure error_type prefix m =
      map_failure (λ x. crawl_failed error_type (prefix ++ web.display x)) m

  module _ (e : Env) where
    unfoldable pub put_compressed : StorageClient → ℕ → M (ℕ × CompressionType)
    put_compressed storage_client storage_id = do
      call_out (λ step.
          if storage_client.compress_fails step || storage_client.put_fails step
          then err storage_failed
          else ok tt)
      pure (storage_id, gzip)

    unfoldable pub put_plain : StorageClient → ℕ → M (ℕ × CompressionType)
    put_plain storage_client storage_id = do
      call_out (λ step. if storage_client.put_fails step then err storage_failed else ok tt)
      pure (storage_id, uncompressed)

    -- `upload_content` of the storage client
    unfoldable pub upload_content : StorageClient → Text → M (ℕ × CompressionType)
    upload_content storage_client content = do
      storage_id ← draw_uuid e
      if storage_client.compress_content && ltb storage_client.compress_min_size (byte_len content)
          then put_compressed storage_client storage_id
          else put_plain storage_client storage_id

    module _ (processor : QueueProcessor) where
      unfoldable pub build_indexed_document : CrawlQueueEntry → CrawledPage → Text → IndexedDocument
      build_indexed_document entry page content = record {
        id = web.md5_hex (unwrap_or processor.tenant_id [] ++ entry.url);
        tenant_id = processor.tenant_id;
        url = entry.url;
        domain = entry.domain;
        title = web.extract_title content;
        content = remove_html_tags content;
        excerpt = build_excerpt (remove_html_tags content);
        crawled_at = web.timestamp page.last_crawled_at;
        http_status = page.http_status;
      }

      unfoldable pub index_document_to_search :
          SearchClient → CrawlQueueEntry → CrawledPage → Text → M (Unit {0})
      index_document_to_search search_client entry page content = do
        let document = build_indexed_document entry page content
        index_document search_client document
        upsert_crawled_page e
            (record page { indexed_document_bytes = some (pos (web.json_len document)) })

      -- Its errors are texts, which become failures of the storage at once.
      unfoldable pub upload_to_storage_required : CrawlResult → M (ℕ × CompressionType)
      upload_to_storage_required result = do
        storage_client ←
            or_raise (crawl_failed storage_error (codes "Storage client not configured"))
              processor.storage_client
        content ←
            or_raise (crawl_failed storage_error (codes "No content to upload")) result.content
        as_crawl_failure storage_error (codes "S3 upload failed: ")
            (upload_content storage_client content)

      -- The page by what was fetched and by the page that was there before, with the identity that a
      -- new page is given
      abbrev pub hash_of : Option Text → Text
      hash_of none = codes ""
      hash_of (some content) = web.md5_hex content

      abbrev pub length_of : Option Text → ℤ
      length_of none = pos 0
      length_of (some content) = as_i32 (byte_len content)

      abbrev pub fetched_page :
          CrawlQueueEntry → CrawlResult → Option ℕ → CompressionType → Url → ℕ → ℕ → CrawledPage
      fetched_page entry result storage_id storage_compression url page_id time = record {
        page_id = page_id;
        tenant_id = processor.db_client.tenant_id;
        domain = extract_domain url;
        url_path = url.path;
        url = entry.url;
        storage_id = storage_id;
        storage_compression = storage_compression;
        last_crawled_at = time;
        next_crawl_at = time + minutes (24 * 60);
        crawl_frequency_hours = pos 24;
        http_status = http_status_of result;
        content_hash = hash_of result.content;
        content_length = length_of result.content;
        indexed_document_bytes = none;
        robots_allowed = result.allowed_by_robots;
        error_message = result.error;
        crawl_count = pos 1;
        created_at = time;
        updated_at = time;
      }

      -- What a page takes from the page that was there before
      abbrev pub following : CrawledPage → CrawledPage → CrawledPage
      following old page = record page {
        page_id = old.page_id;
        indexed_document_bytes = old.indexed_document_bytes;
        crawl_count = succ_i32 old.crawl_count;
        created_at = old.created_at;
      }

      unfoldable pub page_following :
          (ℕ → CrawledPage) → Option (Option CrawledPage) → M CrawledPage
      page_following page (some (some old)) = pure (following old (page 0))
      page_following page _ = do page_id ← draw_uuid e; pure (page page_id)

      -- An error of the lookup counts as no earlier page.
      unfoldable pub create_crawled_page :
          CrawlQueueEntry → CrawlResult → Option ℕ → CompressionType → M CrawledPage
      create_crawled_page entry result storage_id storage_compression = do
        url ← or_raise unparsable_url (web.parse_url entry.url)
        time ← now e
        existing ← attempt (get_crawled_page e processor.db_client (extract_domain url) url.path)
        page_following
            (λ page_id. fetched_page entry result storage_id storage_compression url page_id time)
            existing

      unfoldable pub index_if_configured :
          Option SearchClient → CrawlQueueEntry → CrawledPage → Text → M (Unit {0})
      index_if_configured none entry page content = pure tt
      index_if_configured (some search_client) entry page content =
          as_crawl_failure search_index_error (codes "Failed to index: ")
            (index_document_to_search search_client entry page content)

      unfoldable pub process_post_crawl :
          CrawlQueueEntry → CrawledPage → Text → RobotsMetaDirectives → M (Unit {0})
      process_post_crawl entry page content directives = do
        if directives.noindex
            then pure tt
            else index_if_configured processor.search_client entry page content
        if directives.nofollow
            then pure tt
            else ignore (enqueue_meet_links web e processor.db_client content entry)

      unfoldable pub process_stored :
          CrawlQueueEntry → CrawlResult → Text → ℕ × CompressionType → M (Unit {0})
      process_stored entry result content stored = do
        page ←
            as_crawl_failure database_error (codes "Failed to create page: ")
              (create_crawled_page entry result (some stored.0) stored.1)
        as_crawl_failure database_error (codes "Failed to upsert page: ")
            (upsert_crawled_page e page)
        process_post_crawl entry page content
            (get_robots_directives (web.metas content) result.x_robots_tag)

      unfoldable pub process_allowed : CrawlQueueEntry → CrawlResult → M (Unit {0})
      process_allowed entry result = do
        content ←
            or_raise
              (crawl_failed fetch_error (unwrap_or result.error (codes "No content retrieved")))
              result.content
        stored ← upload_to_storage_required result
        process_stored entry result content stored

      unfoldable pub process_fetched : CrawlQueueEntry → CrawlResult → M (Unit {0})
      process_fetched entry result =
          if not result.allowed_by_robots
          then raise (crawl_failed robots_disallowed (codes "Crawling disallowed by robots.txt"))
          else process_allowed entry result

      unfoldable pub crawl_steps : CrawlQueueEntry → M (Unit {0})
      crawl_steps entry = do
        result ←
            as_crawl_failure fetch_error (codes "Failed to crawl: ")
              (call_out (web.crawl_url entry.url processor.user_agent))
        process_fetched entry result

      unfoldable pub process_crawl_entry : CrawlQueueEntry → World → Outcome × World
      process_crawl_entry entry w = let (r, w') = crawl_steps entry w in (to_outcome r, w')
