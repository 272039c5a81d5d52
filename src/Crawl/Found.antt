-- ===== src/Crawl/Found.antt =====
-- Which links of a page come into the queue: the whole page.
use lala_search.Prelude.{
  ◌≡◌, refl, sym, ap, ◌∙◌, subst, inl, inr, List, [], ◌∷◌, ◌++◌, All, Bool-cases,
}
use mathlib.Core.List
use lala_search.Prelude.Text.{Text}
use lala_search.Models.Crawl.{CrawlQueueEntry}
use lala_search.World.{Database, World, Env, Result, ignore, continue, pure, ◌>>=◌}
use lala_search.World.Keeps.{Keeps, Keeps-end, Keeps-bind, Keeps-pure, Keeps-attempt}
use lala_search.World.Success.{bind-elim}
use lala_search.Crawl.Queue.{DbClient}
use lala_search.Crawl.Order.{In}
use lala_search.Crawl.Web.{Web}
use lala_search.Crawl.Links.{
  enqueue_link, enqueue_links, has_capacity, can_enqueue_discovered_links, enqueue_meet_links,
  extract_links,
}
use lala_search.Crawl.Discovered.{IsDiscovered, with_queued, usage-reads, capacity-reads}
use lala_search.Site.Allowed.{allowed_in}
use lala_search.Crawl.Enqueued.{link-Enqueued}

queued_none : (d : Database) → d ≡ with_queued [] d
queued_none d =
    ap (λ (q : List CrawlQueueEntry). record d { crawl_queue = q })
      (sym (List.append-nil d.crawl_queue))

module _ (web : Web) (e : Env) (client : DbClient) (parent : CrawlQueueEntry) (d : Database) where
  -- Each of the entries was discovered in `d`, at one of the links.
  abbrev pub AreDiscovered : List Text → List CrawlQueueEntry → Type 0
  AreDiscovered links added = All (λ r. IsDiscovered web e client d parent r × In r.url links) added

  -- What was queued before does not matter to a discovery.
  IsDiscovered-with_queued :
      (before : List CrawlQueueEntry) (r : CrawlQueueEntry)
      → IsDiscovered web e client (with_queued before d) parent r
      → IsDiscovered web e client d parent r
  unfolding allowed_in
  IsDiscovered-with_queued before r h = record {
    url = h.url;
    queue_id = h.queue_id;
    time = h.time;
    parsed = h.parsed;
    entry = h.entry;
    allowed = h.allowed;
    new = h.new;
    room = record {
      max_bytes = h.room.max_bytes;
      readable = h.room.readable;
      below = h.room.below;
    };
  }

  AreDiscovered-more :
      (link : Text) (links : List Text) (added : List CrawlQueueEntry)
      → AreDiscovered links added
      → AreDiscovered (link ∷ links) added
  AreDiscovered-more link links [] h = tt
  AreDiscovered-more link links (r ∷ added) ((is, at), h) =
      ((is, inr at), AreDiscovered-more link links added h)

  enqueue_links-step :
      (link : Text) (links : List Text) (w : World)
      → enqueue_links web e client (link ∷ links) parent w
        ≡ enqueue_links web e client links parent (enqueue_link web e client link parent w).1
  unfolding enqueue_links enqueue_link ◌>>=◌ ignore continue
  enqueue_links-step link links w = refl

  -- From a database with `before` in its queue, some entries were added.
  abbrev pub Added : List Text → List CrawlQueueEntry → World → Type 0
  Added links before w =
      (added : List CrawlQueueEntry) × (w.db ≡ with_queued (before ++ added) d)
      × AreDiscovered links added

  Added-none :
      (links : List Text) (before : List CrawlQueueEntry) (w : World)
      → w.db ≡ with_queued before d
      → Added links before w
  Added-none links before w at = (
    [],
    at ∙ ap (λ (q : List CrawlQueueEntry). with_queued q d) (sym (List.append-nil before)),
    tt,
  )

  Added-more :
      (link : Text) (links : List Text) (before : List CrawlQueueEntry) (w : World)
      → Added links before w
      → Added (link ∷ links) before w
  Added-more link links before w (added, at, are) =
      (added, at, AreDiscovered-more link links added are)

  Added-one :
      (link : Text) (links : List Text) (before : List CrawlQueueEntry) (r : CrawlQueueEntry)
      (w : World)
      → r.url ≡ link
      → IsDiscovered web e client d parent r
      → Added links (before ++ r ∷ []) w
      → Added (link ∷ links) before w
  Added-one link links before r w named is (added, at, are) = (
    r ∷ added,
    at
        ∙ ap (λ (q : List CrawlQueueEntry). with_queued q d)
            (List.append_assoc before (r ∷ []) added),
    ((is, inl named), AreDiscovered-more link links added are),
  )

  links-Added :
      (links : List Text) (before : List CrawlQueueEntry) (w : World)
      → w.db ≡ with_queued before d
      → Added links before (enqueue_links web e client links parent w).1
  unfolding enqueue_links pure
  links-Added [] before w at = Added-none [] before w at
  links-Added (link ∷ links) before w at =
      let w₁ = (enqueue_link web e client link parent w).1 in
      let w₂ = (enqueue_links web e client links parent w₁).1 in
      subst (λ (p : Result (Unit {0}) × World). Added (link ∷ links) before p.1)
        (sym (enqueue_links-step link links w))
        (elim (link-Enqueued web e client parent link (with_queued before d) w at) [
          | inl same ↦ Added-more link links before w₂ (links-Added links before w₁ same)
          | inr (r, named, is, added) ↦
              Added-one link links before r w₂ named (IsDiscovered-with_queued before r is) (
                links-Added links (before ++ r ∷ []) w₁ (
                  added
                  ∙ ap (λ (q : List CrawlQueueEntry). record d { crawl_queue = q })
                      (List.append_assoc d.crawl_queue before (r ∷ []))))
        ])

module _ (web : Web) (e : Env) (client : DbClient) (d : Database) where
  has_capacity-reads : Keeps (λ c. c ≡ d) (has_capacity web e client)
  unfolding has_capacity
  has_capacity-reads =
      Keeps-bind _ _ (usage-reads e client d)
        (λ usage. Keeps-bind _ _ (capacity-reads e client d) (λ max. Keeps-pure _))

  can-reads : Keeps (λ c. c ≡ d) (can_enqueue_discovered_links web e client)
  unfolding can_enqueue_discovered_links
  can-reads = Keeps-bind _ _ (Keeps-attempt _ has_capacity-reads) (λ answer. Keeps-pure _)

module _ (web : Web) (e : Env) (client : DbClient) where
  -- `enqueue_meet_links` adds entries to the queue and changes nothing else in the database. Each of
  -- them is for a link of the page, with the priority of the page's entry and no attempts; the link's
  -- domain is among the tenant's allowed ones, its page is not among the tenant's pages, and the
  -- tenant's usage of the index is below its capacity. This holds whatever fails.
  pub enqueue_meet_links-adds :
      (content : Text) (parent : CrawlQueueEntry) (w : World)
      → (added : List CrawlQueueEntry) × ((enqueue_meet_links web e client content parent w).1.db
          ≡ with_queued added w.db)
        × AreDiscovered web e client parent w.db (extract_links web content parent.url) added
  unfolding enqueue_meet_links pure
  enqueue_meet_links-adds content parent w =
      let links = extract_links web content parent.url in
      bind-elim (Added web e client parent w.db links [])
        (can_enqueue_discovered_links web e client) _ w
        (λ x w₁ h. Added-none web e client parent w.db links [] w₁ (
          Keeps-end {P = λ (c : Database). c ≡ w.db} _ w (can-reads web e client w.db) h refl
          ∙ queued_none w.db))
        (λ can w₁ h.
          let at =
            Keeps-end {P = λ (c : Database). c ≡ w.db} _ w (can-reads web e client w.db) h refl in
          elim (Bool-cases can) [
            | inl may ↦
                rw may (links-Added web e client parent w.db links [] w₁ (at ∙ queued_none w.db))
            | inr may_not ↦
                rw may_not (Added-none web e client parent w.db links [] w₁ (at ∙ queued_none w.db))
          ])
