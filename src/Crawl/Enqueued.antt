-- ===== src/Crawl/Enqueued.antt =====
-- Where the work on one link ends.
use lala_search.Prelude.{
  ℕ, suc, ◌≡◌, refl, sym, ap, ◌∙◌, subst, inl, inr, true, false, some, [], ◌∷◌, if◌then◌else◌,
  Bool-cases,
}
use lala_search.Prelude.Text.{Text, is_empty_text}
use lala_search.Prelude.Integers.{ℤ, leb_ℤ}
use lala_search.Prelude.Table.{exists_row}
use lala_search.Models.Crawl.{CrawlQueueEntry}
use lala_search.World.{
  Database, World, Env, pure, or_raise, now, draw_uuid, ignore, ◌>>=◌, unparsable_url,
}
use lala_search.World.Keeps.{Keeps-end, Keeps-fetch, Keeps-or_raise}
use lala_search.World.Success.{bind-elim, fetch-eq-ok, or_raise-eq-ok}
use lala_search.Crawl.Queue.{DbClient, insert_queue_entry}
use lala_search.Crawl.Process.{Url, extract_domain}
use lala_search.Crawl.Web.{Web}
use lala_search.Crawl.Links.{
  discovered_entry, enqueue_within_capacity, enqueue_unless_crawled, enqueue_parsed, enqueue_link,
}
use lala_search.Site.Domains.{is_active_domain, is_domain_allowed}
use lala_search.Site.Pages.{is_page, crawled_page_exists}
use lala_search.Site.Allowed.{allowed_in}
use lala_search.Site.Capacity.{usage_of, get_index_usage_bytes, get_index_capacity_bytes}
use lala_search.Crawl.Discovered.{
  HasRoom, capacity_in, with_queued, get_index_usage_bytes-eq-ok, get_index_capacity_bytes-eq-ok,
  Enqueued, usage-reads, capacity-reads, insert_queue_entry-db,
}

module _ (web : Web) (e : Env) (client : DbClient) (parent : CrawlQueueEntry) (link : Text) where
  insert-Enqueued :
      (url : Url) (d : Database) (w : World)
      → w.db ≡ d
      → web.parse_url link ≡ some url
      → allowed_in d client.tenant_id (extract_domain url) ≡ true
      → exists_row (is_page client.tenant_id (extract_domain url) url.path) d.site.crawled_pages
        ≡ false
      → HasRoom client d
      → (queue_id time : ℕ)
      → Enqueued web e client d parent link
          (insert_queue_entry e
            (discovered_entry web e client link (extract_domain url) parent queue_id time)
            w).1
  insert-Enqueued url d w at parsed allowed new room queue_id time =
      let r = discovered_entry web e client link (extract_domain url) parent queue_id time in
      elim (insert_queue_entry-db e client r w) [
        | inl same ↦ inl (same ∙ at)
        | inr more ↦ inr (
          r,
          refl,
          record {
            url = url;
            queue_id = queue_id;
            time = time;
            parsed = parsed;
            entry = refl;
            allowed = allowed;
            new = new;
            room = room;
          },
          more ∙ ap (with_queued (r ∷ [])) at,
        )
      ]

  -- The usage and the capacity are read: there is room, or nothing is done.
  within_read :
      (url : Url) (d : Database) (w : World) (usage max : ℤ)
      → w.db ≡ d
      → usage ≡ usage_of client.tenant_id d.site.crawled_pages
      → capacity_in client d ≡ some max
      → web.parse_url link ≡ some url
      → allowed_in d client.tenant_id (extract_domain url) ≡ true
      → exists_row (is_page client.tenant_id (extract_domain url) url.path) d.site.crawled_pages
        ≡ false
      → Enqueued web e client d parent link
          ((if leb_ℤ max usage
              then pure tt
              else (now e >>= λ time. draw_uuid e >>= λ queue_id.
                  insert_queue_entry e
                    (discovered_entry web e client link (extract_domain url) parent queue_id time)))
            w).1
  unfolding ◌>>=◌ now draw_uuid pure
  within_read url d w usage max at is_usage is_max parsed allowed new =
      elim (Bool-cases (leb_ℤ max usage)) [
        | inl full ↦ rw full (inl at)
        | inr below ↦ rw below (
            insert-Enqueued url d (record w { uuids_drawn = suc w.uuids_drawn }) at parsed allowed
              new
              (record {
                max_bytes = max;
                readable = is_max;
                below = subst (λ (n : ℤ). leb_ℤ max n ≡ false) is_usage below;
              })
              (e.uuid w.uuids_drawn) (e.clock w.steps))
      ]

  within-Enqueued :
      (url : Url) (d : Database) (w : World)
      → w.db ≡ d
      → web.parse_url link ≡ some url
      → allowed_in d client.tenant_id (extract_domain url) ≡ true
      → exists_row (is_page client.tenant_id (extract_domain url) url.path) d.site.crawled_pages
        ≡ false
      → Enqueued web e client d parent link
          (enqueue_within_capacity web e client link (extract_domain url) parent w).1
  unfolding enqueue_within_capacity
  within-Enqueued url d w at parsed allowed new =
      bind-elim (Enqueued web e client d parent link) (get_index_usage_bytes e client) _ w
        (λ x w₁ h. inl (Keeps-end _ w (usage-reads e client d) h at))
        (λ usage w₁ read_usage.
          let at₁ =
            Keeps-end (get_index_usage_bytes e client) w (usage-reads e client d) read_usage at in
          bind-elim (Enqueued web e client d parent link) (get_index_capacity_bytes e client) _ w₁
            (λ x w₂ h. inl (Keeps-end _ w₁ (capacity-reads e client d) h at₁))
            (λ max w₂ read_max.
              let at₂ =
                Keeps-end (get_index_capacity_bytes e client) w₁ (capacity-reads e client d)
                  read_max at₁ in
              let (is_usage, _) = get_index_usage_bytes-eq-ok e client w read_usage in
              let (is_max, _) = get_index_capacity_bytes-eq-ok e client w₁ read_max in
              within_read url d w₂ usage max at₂
                (subst (λ (c : Database). usage ≡ usage_of client.tenant_id c.site.crawled_pages) at
                  is_usage)
                (subst (λ (c : Database). capacity_in client c ≡ some max) at₁ is_max) parsed
                allowed new))

  unless_crawled-Enqueued :
      (url : Url) (d : Database) (w : World)
      → w.db ≡ d
      → web.parse_url link ≡ some url
      → allowed_in d client.tenant_id (extract_domain url) ≡ true
      → Enqueued web e client d parent link
          (enqueue_unless_crawled web e client link (extract_domain url) url.path parent w).1
  unfolding enqueue_unless_crawled crawled_page_exists pure
  unless_crawled-Enqueued url d w at parsed allowed =
      bind-elim (Enqueued web e client d parent link)
        (crawled_page_exists e client (extract_domain url) url.path) _ w
        (λ x w₁ h. inl (Keeps-end {P = λ (c : Database). c ≡ d} _ w (Keeps-fetch e _) h at))
        (λ exists w₁ h.
          let (is_there, _) = fetch-eq-ok e _ w h in
          let at₁ = Keeps-end {P = λ (c : Database). c ≡ d} _ w (Keeps-fetch e _) h at in
          elim (Bool-cases exists) [
            | inl there ↦ rw there (inl at₁)
            | inr absent ↦ rw absent (
                within-Enqueued url d w₁ at₁ parsed allowed (
                  subst
                    (λ (c : Database).
                      exists_row (is_page client.tenant_id (extract_domain url) url.path)
                        c.site.crawled_pages
                      ≡ false)
                    at (sym is_there ∙ absent)))
          ])

  parsed-Enqueued :
      (url : Url) (d : Database) (w : World)
      → w.db ≡ d
      → web.parse_url link ≡ some url
      → Enqueued web e client d parent link (enqueue_parsed web e client link parent url w).1
  unfolding enqueue_parsed is_domain_allowed pure allowed_in
  parsed-Enqueued url d w at parsed = elim (Bool-cases (is_empty_text (extract_domain url))) [
    | inl empty ↦ rw empty (inl at)
    | inr named ↦ rw named (
        bind-elim (Enqueued web e client d parent link)
          (is_domain_allowed e client (extract_domain url)) _ w
          (λ x w₁ h. inl (Keeps-end {P = λ (c : Database). c ≡ d} _ w (Keeps-fetch e _) h at))
          (λ allowed w₁ h.
            let (is_allowed, _) = fetch-eq-ok e _ w h in
            let at₁ = Keeps-end {P = λ (c : Database). c ≡ d} _ w (Keeps-fetch e _) h at in
            elim (Bool-cases allowed) [
              | inl may ↦ rw may (
                  unless_crawled-Enqueued url d w₁ at₁ parsed (
                    subst
                      (λ (c : Database).
                        exists_row (is_active_domain client.tenant_id (extract_domain url))
                          c.site.allowed_domains
                        ≡ true)
                      at (sym is_allowed ∙ may)))
              | inr may_not ↦ rw may_not (inl at₁)
            ]))
  ]

  pub link-Enqueued :
      (d : Database) (w : World)
      → w.db ≡ d
      → Enqueued web e client d parent link (enqueue_link web e client link parent w).1
  unfolding enqueue_link ignore
  link-Enqueued d w at =
      bind-elim (Enqueued web e client d parent link) (or_raise unparsable_url (web.parse_url link))
        _ w (λ x w₁ h. inl (Keeps-end {P = λ (c : Database). c ≡ d} _ w (Keeps-or_raise _ _) h at))
        (λ url w₁ h.
          let (parsed, at_w) = or_raise-eq-ok _ _ w h in
          parsed-Enqueued url d w₁ (ap (λ (v : World). v.db) at_w ∙ at) parsed)
