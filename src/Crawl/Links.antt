-- ===== src/Crawl/Links.antt =====
-- lala-agent/src/services/queue_processor.rs: the links of a page and their way into the queue.
use lala_search.Prelude.{
  ℕ, Bool, false, Option, none, some, List, [], ◌∷◌, unwrap_or, if◌then◌else◌,
}
use lala_search.Prelude.Text.{
  Text, codes, is_empty_text, trim, to_lowercase, contains, text_eq, text_ltb,
}
use lala_search.Prelude.Table.{order_rows}
use lala_search.Prelude.Integers.{ℤ, leb_ℤ, ltb_ℤ}
use lala_search.Models.Crawl.{CrawlQueueEntry}
use lala_search.World.{
  Env, M, pure, or_raise, ignore, attempt, now, draw_uuid, ◌>>=◌, ◌>>◌, unparsable_url,
}
use lala_search.Crawl.Queue.{DbClient, insert_queue_entry}
use lala_search.Crawl.Process.{Url, extract_domain}
use lala_search.Crawl.Web.{Anchor, Web}
use lala_search.Site.Domains.{is_domain_allowed}
use lala_search.Site.Pages.{crawled_page_exists}
use lala_search.Site.Capacity.{get_index_usage_bytes, get_index_capacity_bytes}

-- `links.dedup()`: of neighbours that are equal, the first
unfoldable pub dedup_after : Text → List Text → List Text
dedup_after link [] = []
dedup_after link (next ∷ links) =
    let rest = dedup_after next links in if text_eq link next then rest else next ∷ rest

unfoldable pub dedup : List Text → List Text
unfolding dedup_after
dedup [] = []
dedup (link ∷ links) = link ∷ dedup_after link links

abbrev pub tenant_has_capacity_for_discovered_links : ℤ → ℤ → Bool
tenant_has_capacity_for_discovered_links usage_bytes max_bytes = ltb_ℤ usage_bytes max_bytes

unfoldable pub is_nofollow : Option Text → Bool
is_nofollow none = false
is_nofollow (some rel) = contains (codes "nofollow") (to_lowercase rel)

module _ (web : Web) where
  unfoldable pub join_or_href : Text → Text → Option Url → Text
  join_or_href base_url href none = href
  join_or_href base_url href (some base) = unwrap_or (web.join_url base_url href) href

  unfoldable pub resolve_url : Text → Text → Text
  resolve_url base_url href = join_or_href base_url href (web.parse_url base_url)

  -- The links in the order of the page
  unfoldable pub collect_links : Text → List Anchor → List Text
  unfolding is_nofollow
  collect_links base_url [] = []
  collect_links base_url (a ∷ anchors) =
      let rest = collect_links base_url anchors in
      if is_nofollow a.rel
      then rest
      else if is_empty_text (trim a.href)
      then rest
      else resolve_url base_url (trim a.href) ∷ rest

  unfoldable pub extract_links : Text → Text → List Text
  extract_links html base_url =
      dedup (order_rows text_ltb (collect_links base_url (web.anchors html)))

  module _ (e : Env) (client : DbClient) where
    abbrev pub discovered_entry : Text → Text → CrawlQueueEntry → ℕ → ℕ → CrawlQueueEntry
    discovered_entry link domain parent queue_id time = record {
      queue_id = queue_id;
      tenant_id = client.tenant_id;
      priority = parent.priority;
      scheduled_at = time;
      url = link;
      domain = domain;
      last_attempt_at = none;
      attempt_count = 0;
      created_at = time;
    }

    unfoldable pub enqueue_within_capacity : Text → Text → CrawlQueueEntry → M (Unit {0})
    enqueue_within_capacity link domain parent = do
      usage_bytes ← get_index_usage_bytes e client
      max_bytes ← get_index_capacity_bytes e client
      if leb_ℤ max_bytes usage_bytes then pure tt else do
        time ← now e
        queue_id ← draw_uuid e
        insert_queue_entry e (discovered_entry link domain parent queue_id time)

    unfoldable pub enqueue_unless_crawled : Text → Text → Text → CrawlQueueEntry → M (Unit {0})
    enqueue_unless_crawled link domain url_path parent = do
      exists ← crawled_page_exists e client domain url_path
      if exists then pure tt else enqueue_within_capacity link domain parent

    unfoldable pub enqueue_parsed : Text → CrawlQueueEntry → Url → M (Unit {0})
    enqueue_parsed link parent url = if is_empty_text (extract_domain url) then pure tt else do
      allowed ← is_domain_allowed e client (extract_domain url)
      if allowed then enqueue_unless_crawled link (extract_domain url) url.path parent else pure tt

    -- An error ends the work on the link and is only printed.
    unfoldable pub enqueue_link : Text → CrawlQueueEntry → M (Unit {0})
    enqueue_link link parent =
        ignore
          (do url ← or_raise unparsable_url (web.parse_url link); enqueue_parsed link parent url)

    unfoldable pub enqueue_links : List Text → CrawlQueueEntry → M (Unit {0})
    enqueue_links [] parent = pure tt
    enqueue_links (link ∷ links) parent = enqueue_link link parent >> enqueue_links links parent

    unfoldable pub has_capacity : M Bool
    has_capacity = do
      usage_bytes ← get_index_usage_bytes e client
      max_bytes ← get_index_capacity_bytes e client
      pure (tenant_has_capacity_for_discovered_links usage_bytes max_bytes)

    -- An error counts as no capacity.
    unfoldable pub can_enqueue_discovered_links : M Bool
    can_enqueue_discovered_links = do answer ← attempt has_capacity; pure (unwrap_or answer false)

    unfoldable pub enqueue_meet_links : Text → CrawlQueueEntry → M (Unit {0})
    enqueue_meet_links content entry = do
      can ← can_enqueue_discovered_links
      if can then enqueue_links (extract_links content entry.url) entry else pure tt
