-- ===== src/Crawl/Respect.antt =====
-- What the directives of a page keep the crawler from.
use lala_search.Prelude.{
  ℕ, ◌≡◌, refl, sym, subst, ◌∙◌, true, not, Option, none, some, List, [], ◌∷◌,
}
use lala_search.Prelude.Text.{Text}
use lala_search.Models.Crawl.{CrawlQueueEntry}
use lala_search.Models.Pages.{CompressionType, CrawledPage}
use lala_search.World.{World, ok, Env, tick, call_out, map_failure, caught, continue, ◌>>=◌}
use lala_search.World.Index.{
  KeepsIndex, KeepsIndex-bind, KeepsIndex-or_raise_bind, KeepsIndex-ignore, KeepsIndex-pure,
  KeepsIndex-if, KeepsIndex-raise, KeepsIndex-map_failure, KeepsIndex-write_if, index_rules,
}
use lala_search.Crawl.Queue.{DbClient, get_setting, insert_queue_entry}
use lala_search.Crawl.Web.{Web, CrawlResult, QueueProcessor}
use lala_search.Crawl.Robots.{RobotsMetaDirectives, get_robots_directives}
use lala_search.Crawl.Links.{
  enqueue_within_capacity, enqueue_unless_crawled, enqueue_parsed, enqueue_link, enqueue_links,
  has_capacity, can_enqueue_discovered_links, enqueue_meet_links,
}
use lala_search.Crawl.Stages.{
  put_compressed, put_plain, upload_content, as_crawl_failure, upload_to_storage_required,
  page_following, create_crawled_page, process_post_crawl, process_fetched, process_stored,
  process_allowed, crawl_steps, process_crawl_entry,
}
use lala_search.Site.Domains.{is_domain_allowed}
use lala_search.Site.Pages.{crawled_page_exists, get_crawled_page, upsert_crawled_page}
use lala_search.Site.Capacity.{
  configured_capacity, capacity_of, get_index_usage_bytes, get_index_capacity_bytes,
}

module _ (web : Web) (e : Env) where
  module _ (client : DbClient) where
    usage-index : KeepsIndex (get_index_usage_bytes e client)
    unfolding get_index_usage_bytes
    usage-index = search index_rules depth 9

    configured-index : (value : Option Text) → KeepsIndex (configured_capacity e client value)
    unfolding configured_capacity
    configured-index none = search index_rules
    configured-index (some value) = search index_rules

    capacity_of-index : (value : Option Text) → KeepsIndex (capacity_of e client value)
    unfolding capacity_of
    capacity_of-index none = configured-index client.tenant_index_capacity_bytes
    capacity_of-index (some value) = search index_rules

    capacity-index : KeepsIndex (get_index_capacity_bytes e client)
    unfolding get_index_capacity_bytes get_setting
    capacity-index = search (index_rules, capacity_of-index) depth 9

    within-index :
        (link domain : Text) (parent : CrawlQueueEntry)
        → KeepsIndex (enqueue_within_capacity web e client link domain parent)
    unfolding enqueue_within_capacity insert_queue_entry
    within-index link domain parent = search (index_rules, usage-index, capacity-index) depth 14

    link-index :
        (link : Text) (parent : CrawlQueueEntry)
        → KeepsIndex (enqueue_link web e client link parent)
    unfolding enqueue_link enqueue_parsed enqueue_unless_crawled is_domain_allowed
        crawled_page_exists
    link-index link parent = search (index_rules, within-index) depth 14

    links-index :
        (links : List Text) (parent : CrawlQueueEntry)
        → KeepsIndex (enqueue_links web e client links parent)
    unfolding enqueue_links
    links-index [] parent = KeepsIndex-pure tt
    links-index (link ∷ links) parent =
        KeepsIndex-bind _ _ (link-index link parent) (λ _. links-index links parent)

    meet-index :
        (content : Text) (entry : CrawlQueueEntry)
        → KeepsIndex (enqueue_meet_links web e client content entry)
    unfolding enqueue_meet_links can_enqueue_discovered_links has_capacity
    meet-index content entry =
        search (index_rules, usage-index, capacity-index, links-index) depth 14

  module _ (processor : QueueProcessor) (entry : CrawlQueueEntry) where
    page_following-index :
        (page : ℕ → CrawledPage) (existing : Option (Option CrawledPage))
        → KeepsIndex (page_following web e processor page existing)
    unfolding page_following
    page_following-index page none = search index_rules depth 9
    page_following-index page (some none) = search index_rules depth 9
    page_following-index page (some (some old)) = search index_rules depth 9

    create-index :
        (result : CrawlResult) (storage_id : Option ℕ) (compression : CompressionType)
        → KeepsIndex (create_crawled_page web e processor entry result storage_id compression)
    unfolding create_crawled_page get_crawled_page
    create-index result storage_id compression = search (index_rules, page_following-index) depth 14

    upload-index :
        (result : CrawlResult) → KeepsIndex (upload_to_storage_required web e processor result)
    unfolding upload_to_storage_required upload_content put_compressed put_plain as_crawl_failure
    upload-index result = search index_rules depth 14

    noindex-index :
        (page : CrawledPage) (content : Text) (directives : RobotsMetaDirectives)
        → directives.noindex ≡ true
        → KeepsIndex (process_post_crawl web e processor entry page content directives)
    unfolding process_post_crawl
    noindex-index page content directives h = KeepsIndex-bind _ _ (rw h (KeepsIndex-pure tt)) (λ _.
        KeepsIndex-if _ _ _ (λ _. KeepsIndex-pure tt)
          (λ _. KeepsIndex-ignore _ (meet-index processor.db_client content entry)))

    stored-index :
        (result : CrawlResult) (content : Text) (stored : ℕ × CompressionType)
        → (get_robots_directives (web.metas content) result.x_robots_tag).noindex ≡ true
        → KeepsIndex (process_stored web e processor entry result content stored)
    unfolding process_stored upsert_crawled_page as_crawl_failure
    stored-index result content stored h =
        KeepsIndex-bind _ _
          (KeepsIndex-map_failure _ _ (create-index result (some stored.0) stored.1))
          (λ page.
            KeepsIndex-bind _ _ (KeepsIndex-map_failure _ _ (KeepsIndex-write_if e _ _))
              (λ _. noindex-index page content _ h))

    allowed-index :
        (result : CrawlResult)
        → ((content : Text)
            → result.content ≡ some content
            → (get_robots_directives (web.metas content) result.x_robots_tag).noindex ≡ true)
        → KeepsIndex (process_allowed web e processor entry result)
    unfolding process_allowed
    allowed-index result says = KeepsIndex-or_raise_bind _ _ _ (λ content is.
        KeepsIndex-bind _ _ (upload-index result)
          (λ stored. stored-index result content stored (says content is)))

    fetched-index :
        (result : CrawlResult)
        → ((content : Text)
            → result.content ≡ some content
            → (get_robots_directives (web.metas content) result.x_robots_tag).noindex ≡ true)
        → KeepsIndex (process_fetched web e processor entry result)
    unfolding process_fetched
    fetched-index result says =
        KeepsIndex-if (not result.allowed_by_robots) _
          (process_allowed web e processor entry result) (λ _. KeepsIndex-raise _)
          (λ _. allowed-index result says)

    -- What a fetch that returned is followed by.
    crawl_steps_fetched :
        (result : CrawlResult) (w : World)
        → web.crawl_url entry.url processor.user_agent w.steps ≡ ok result
        → crawl_steps web e processor entry w
          ≡ process_fetched web e processor entry result (tick w)
    unfolding crawl_steps as_crawl_failure map_failure call_out caught ◌>>=◌ continue
    crawl_steps_fetched result w h = rw h refl

    -- A page whose meta tags or header say noindex is not given to the search server, whatever else
    -- the crawl of the page does or fails to do.
    pub process_crawl_entry-noindex :
        (result : CrawlResult) (content : Text) (w : World)
        → web.crawl_url entry.url processor.user_agent w.steps ≡ ok result
        → result.content ≡ some content
        → (get_robots_directives (web.metas content) result.x_robots_tag).noindex ≡ true
        → (process_crawl_entry web e processor entry w).1.indexed ≡ w.indexed
    unfolding process_crawl_entry tick
    process_crawl_entry-noindex result content w h is says =
        let same = λ (other : Text) (at : result.content ≡ some other).
          let equal : some content ≡ some other = sym is ∙ at in
          let named : content ≡ other = cc in
          subst
            (λ (c : Text). (get_robots_directives (web.metas c) result.x_robots_tag).noindex ≡ true)
            named says in
        rw (crawl_steps_fetched result w h) ((fetched-index result same).through (tick w))
