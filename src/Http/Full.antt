-- ===== src/Http/Full.antt =====
-- What the capacity of the index allows.
use lala_search.Prelude.{
  ℕ, suc, ◌≡◌, refl, sym, ap, subst, ◌∙◌, ◌⊎◌, inl, inr, Bool, true, false, Option, some, [], ◌∷◌,
  if◌then◌else◌,
}
use lala_search.Prelude.Text.{Text}
use lala_search.Prelude.Table.{exists_row}
use lala_search.Prelude.Integers.{ℤ, leb_ℤ}
use lala_search.Models.Crawl.{CrawlQueueEntry}
use lala_search.World.{
  Database, World, Env, ok, pure, or_raise, as_status, status, now, draw_uuid, ◌>>=◌, map_failure,
}
use lala_search.World.Keeps.{
  Keeps, Keeps-end, Keeps-bind, Keeps-if, Keeps-raise, Keeps-pure, Keeps-or_raise, Keeps-fetch,
  Keeps-as_status,
}
use lala_search.World.Success.{
  bind-elim, bind-end, bind-eq-ok, pure-eq-ok, or_raise-eq-ok, as_status-eq-ok, fetch-eq-ok,
  if_raise-eq-ok,
}
use lala_search.Crawl.Queue.{DbClient, insert_queue_entry}
use lala_search.Crawl.Process.{Url}
use lala_search.Crawl.Discovered.{
  HasRoom, capacity_in, with_queued, get_index_usage_bytes-eq-ok, get_index_capacity_bytes-eq-ok,
  usage-reads, capacity-reads, insert_queue_entry-db,
}
use lala_search.Site.Pages.{is_page, crawled_page_exists}
use lala_search.Site.Capacity.{usage_of}
use lala_search.Http.Queueing.{
  requested_entry, require_capacity, queue_requested, queue_url_for_crawling,
}

module _ (parse_url : Text → Option Url) (e : Env) (db : DbClient) (url : Text) (priority : ℕ)
    (d : Database) where
  -- An entry for the URL that was let into the queue of `d`: its page was there already, or there was
  -- room for another one.
  pub record IsLetIn (r : CrawlQueueEntry) : Type 0 where
    pub parsed : Url
    pub parses : parse_url url ≡ some parsed
    pub host : Text
    pub named : parsed.host_str ≡ some host
    pub queue_id : ℕ
    pub time : ℕ
    pub entry : r ≡ requested_entry parse_url e db url priority host queue_id time
    pub may :
        (exists_row (is_page db.tenant_id host parsed.path) d.site.crawled_pages ≡ true)
        ⊎ HasRoom db d

  abbrev pub Queued : World → Type 0
  Queued w = (w.db ≡ d) ⊎ ((r : CrawlQueueEntry) × IsLetIn r × (w.db ≡ with_queued (r ∷ []) d))

  abbrev Same : Database → Type 0
  Same c = c ≡ d

  -- The capacity is asked for and given, or the request ends.
  require_capacity-HasRoom :
      (w w₁ : World)
      → w.db ≡ d
      → require_capacity parse_url e db w ≡ (ok tt, w₁)
      → HasRoom db d × (w₁.db ≡ d)
  unfolding require_capacity
  require_capacity-HasRoom w w₁ at h =
      let (usage, w₂, asked, h₂) = bind-eq-ok _ _ w h in
      let (is_usage, at₂) = get_index_usage_bytes-eq-ok e db w (as_status-eq-ok 500 _ w asked) in
      let (max, w₃, read, h₃) = bind-eq-ok _ _ w₂ h₂ in
      let (is_max, at₃) = get_index_capacity_bytes-eq-ok e db w₂ (as_status-eq-ok 500 _ w₂ read) in
      let (below, rest) = if_raise-eq-ok (leb_ℤ max usage) _ _ w₃ h₃ in
      let (_, same) = pure-eq-ok tt w₃ rest in
      (
        record {
          max_bytes = max;
          readable = subst (λ (c : Database). capacity_in db c ≡ some max) (at₂ ∙ at) is_max;
          below =
              subst (λ (n : ℤ). leb_ℤ max n ≡ false)
                (is_usage ∙ ap (λ (c : Database). usage_of db.tenant_id c.site.crawled_pages) at)
                below;
        },
        ap (λ (v : World). v.db) same ∙ at₃ ∙ at₂ ∙ at,
      )

  require_capacity-reads : Keeps Same (require_capacity parse_url e db)
  unfolding require_capacity
  require_capacity-reads = Keeps-bind _ _ (Keeps-as_status 500 _ (usage-reads e db d)) (λ usage.
      Keeps-bind _ _ (Keeps-as_status 500 _ (capacity-reads e db d))
        (λ max. Keeps-if (leb_ℤ max usage) _ _ (λ _. Keeps-raise _) (λ _. Keeps-pure _)))

  inserted-Queued :
      (r : CrawlQueueEntry) (w : World)
      → w.db ≡ d
      → IsLetIn r
      → Queued (as_status 500 (insert_queue_entry e r) w).1
  unfolding as_status map_failure
  inserted-Queued r w at is = elim (insert_queue_entry-db e db r w) [
    | inl same ↦ inl (same ∙ at)
    | inr more ↦ inr (r, is, more ∙ ap (with_queued (r ∷ [])) at)
  ]

  requested-Queued :
      (parsed : Url) (host : Text) (w : World)
      → w.db ≡ d
      → parse_url url ≡ some parsed
      → parsed.host_str ≡ some host
      → (exists_row (is_page db.tenant_id host parsed.path) d.site.crawled_pages ≡ true)
        ⊎ HasRoom db d
      → Queued (queue_requested parse_url e db url priority host w).1
  unfolding queue_requested ◌>>=◌ now draw_uuid pure
  requested-Queued parsed host w at parses named may =
      let w₁ : World = record w { uuids_drawn = suc w.uuids_drawn } in
      let r =
        requested_entry parse_url e db url priority host (e.uuid w.uuids_drawn) (e.clock w.steps) in
      subst Queued (sym (bind-end (as_status 500 (insert_queue_entry e r)) host w₁)) (
        inserted-Queued r w₁ at (record {
          parsed = parsed;
          parses = parses;
          host = host;
          named = named;
          queue_id = e.uuid w.uuids_drawn;
          time = e.clock w.steps;
          entry = refl;
          may = may;
        }))

  checked-Queued :
      (parsed : Url) (host : Text) (page_exists : Bool) (w : World)
      → w.db ≡ d
      → parse_url url ≡ some parsed
      → parsed.host_str ≡ some host
      → page_exists ≡ exists_row (is_page db.tenant_id host parsed.path) d.site.crawled_pages
      → Queued
          (((if page_exists then pure tt else require_capacity parse_url e db) >>= λ _.
              queue_requested parse_url e db url priority host)
            w).1
  checked-Queued parsed host true w at parses named there =
      bind-elim Queued (pure tt) _ w (λ x w₁ h. inl (Keeps-end {P = Same} _ w (Keeps-pure _) h at))
        (λ u w₁ h.
          requested-Queued parsed host w₁ (Keeps-end {P = Same} _ w (Keeps-pure _) h at) parses
            named (inl (sym there)))
  checked-Queued parsed host false w at parses named absent =
      bind-elim Queued (require_capacity parse_url e db) _ w
        (λ x w₁ h. inl (Keeps-end {P = Same} _ w require_capacity-reads h at))
        (λ u w₁ h.
          let (room, at₁) = require_capacity-HasRoom w w₁ at h in
          requested-Queued parsed host w₁ at₁ parses named (inr room))

  host-Queued :
      (parsed : Url) (host : Text) (w : World)
      → w.db ≡ d
      → parse_url url ≡ some parsed
      → parsed.host_str ≡ some host
      → Queued
          ((as_status 500 (crawled_page_exists e db host parsed.path) >>= λ page_exists.
              (if page_exists then pure tt else require_capacity parse_url e db) >>= λ _.
              queue_requested parse_url e db url priority host)
            w).1
  unfolding crawled_page_exists
  host-Queued parsed host w at parses named =
      bind-elim Queued (as_status 500 (crawled_page_exists e db host parsed.path)) _ w
        (λ x w₁ h. inl (Keeps-end {P = Same} _ w (Keeps-as_status 500 _ (Keeps-fetch e _)) h at))
        (λ page_exists w₁ h.
          let (is_there, _) = fetch-eq-ok e _ w (as_status-eq-ok 500 _ w h) in
          let at₁ = Keeps-end {P = Same} _ w (Keeps-as_status 500 _ (Keeps-fetch e _)) h at in
          checked-Queued parsed host page_exists w₁ at₁ parses named (
            is_there
            ∙ ap
                (λ (c : Database).
                  exists_row (is_page db.tenant_id host parsed.path) c.site.crawled_pages)
                at))

  url-Queued :
      (w : World) → w.db ≡ d → Queued (queue_url_for_crawling parse_url e db url priority w).1
  unfolding queue_url_for_crawling
  url-Queued w at =
      bind-elim Queued (or_raise (status 400) (parse_url url)) _ w
        (λ x w₁ h. inl (Keeps-end {P = Same} _ w (Keeps-or_raise _ _) h at))
        (λ parsed w₁ h.
          let (parses, same) = or_raise-eq-ok _ _ w h in
          let at₁ : w₁.db ≡ d = ap (λ (v : World). v.db) same ∙ at in
          bind-elim Queued (or_raise (status 400) parsed.host_str) _ w₁
            (λ x w₂ k. inl (Keeps-end {P = Same} _ w₁ (Keeps-or_raise _ _) k at₁))
            (λ host w₂ k.
              let (named, same₁) = or_raise-eq-ok _ _ w₁ k in
              host-Queued parsed host w₂ (ap (λ (v : World). v.db) same₁ ∙ at₁) parses named))

module _ (parse_url : Text → Option Url) (e : Env) (db : DbClient) (url : Text) (priority : ℕ) where
  -- What comes into the queue for a URL: at most one entry, and that only for a page that is there
  -- already or while the tenant's usage of the index is below its capacity; nothing else changes in
  -- the database. This holds whatever fails.
  pub queue_url_for_crawling-Queued :
      (w : World)
      → Queued parse_url e db url priority w.db
          (queue_url_for_crawling parse_url e db url priority w).1
  queue_url_for_crawling-Queued w = url-Queued parse_url e db url priority w.db w refl
