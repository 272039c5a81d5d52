-- ===== src/Crawl/Order.antt =====
-- Which entry of the queue comes next.
use lala_search.Prelude.{
  ℕ, ◌<◌, ◌≤◌, ◌↔◌, ◌≡◌, refl, sym, subst, ◌∙◌, ◌⊎◌, Bool, true, false, Option, none, some, List,
  [], ◌∷◌, All, arith, inl, inr, Bool-cases,
}
use lala_search.Prelude.Table.{select_all}
use lala_search.Models.Crawl.{CrawlQueueEntry}
use lala_search.World.{World, Env, ok, now, fetch, ◌>>=◌}
use lala_search.Crawl.Queue.{
  DbClient, is_due, comes_before, earlier, first_entry, get_next_queue_entry,
}

abbrev pub In : {A : Type 0} → A → List A → Type 0
In a [] = ⊥
In a (b ∷ bs) = (a ≡ b) ⊎ In a bs

-- No entry of the rows comes before this one.
abbrev pub IsFirst : CrawlQueueEntry → List CrawlQueueEntry → Type 0
IsFirst r rows = All (λ s. comes_before s r ≡ false) rows

not_before_trans :
    (r s t : CrawlQueueEntry)
    → comes_before t s ≡ false
    → comes_before s r ≡ false
    → comes_before t r ≡ false
not_before_trans r s t p q = ground (arith, p, q)

IsFirst-trans :
    (r s : CrawlQueueEntry) (rows : List CrawlQueueEntry)
    → IsFirst s rows
    → comes_before s r ≡ false
    → IsFirst r rows
IsFirst-trans r s [] h q = tt
IsFirst-trans r s (t ∷ rows) (p, h) q = (not_before_trans r s t p q, IsFirst-trans r s rows h q)

first_entry-none : (rows : List CrawlQueueEntry) → first_entry rows ≡ none → rows ≡ []
unfolding first_entry
first_entry-none [] h = refl
first_entry-none (r ∷ rows) h = cc

IsFirst-earlier :
    (r : CrawlQueueEntry) (rows : List CrawlQueueEntry) (o : Option CrawlQueueEntry)
    → first_entry rows ≡ o
    → ((s : CrawlQueueEntry) → o ≡ some s → In s rows × IsFirst s rows)
    → In (earlier r o) (r ∷ rows) × IsFirst (earlier r o) (r ∷ rows)
unfolding earlier
IsFirst-earlier r rows none h k = rw (first_entry-none rows h) (inl refl, (ground arith, tt))
IsFirst-earlier r rows (some s) h k = elim (Bool-cases (comes_before s r)) [
  | inl before ↦
      let is : earlier r (some s) ≡ s = rw before refl in
      subst (λ t. In t (r ∷ rows) × IsFirst t (r ∷ rows)) (sym is)
        (inr (k s refl).0, (ground (arith, before), (k s refl).1))
  | inr after ↦
      let is : earlier r (some s) ≡ r = rw after refl in
      subst (λ t. In t (r ∷ rows) × IsFirst t (r ∷ rows)) (sym is)
        (inl refl, (ground arith, IsFirst-trans r s rows (k s refl).1 after))
]

first_entry-IsFirst :
    (rows : List CrawlQueueEntry) (r : CrawlQueueEntry)
    → first_entry rows ≡ some r
    → In r rows × IsFirst r rows
unfolding first_entry
first_entry-IsFirst [] r h = absurd (ground (arith, h))
first_entry-IsFirst (s ∷ rows) r h =
    let same : earlier s (first_entry rows) ≡ r = ground (arith, h) in
    subst (λ t. In t (s ∷ rows) × IsFirst t (s ∷ rows)) same
      (IsFirst-earlier s rows (first_entry rows) refl (λ t is. first_entry-IsFirst rows t is))

module _ (p : CrawlQueueEntry → Bool) where
  In-select_all :
      (r : CrawlQueueEntry) (rows : List CrawlQueueEntry)
      → In r (select_all p rows)
      → In r rows × (p r ≡ true)
  unfolding select_all
  In-select_all r [] h = absurd h
  In-select_all r (s ∷ rows) h = elim (Bool-cases (p s)) [
    | inl met ↦ elim (rw met at h) [
      | inl same ↦ (inl same, subst (λ t. p t ≡ true) (sym same) met)
      | inr rest ↦ (inr (In-select_all r rows rest).0, (In-select_all r rows rest).1)
    ]
    | inr unmet ↦ let rest = In-select_all r rows (rw unmet at h) in (inr rest.0, rest.1)
  ]

  All-select_all :
      (Q : CrawlQueueEntry → Type 0) (rows : List CrawlQueueEntry)
      → All Q (select_all p rows)
      → All (λ s. p s ≡ true → Q s) rows
  unfolding select_all
  All-select_all Q [] h = tt
  All-select_all Q (s ∷ rows) h = elim (Bool-cases (p s)) [
    | inl met ↦ let (q, qs) = rw met at h in (λ _. q, All-select_all Q rows qs)
    | inr unmet ↦
        (λ met. absurd (ground (arith, met, unmet)), All-select_all Q rows (rw unmet at h))
  ]

none_due :
    (p : CrawlQueueEntry → Bool) (rows : List CrawlQueueEntry)
    → select_all p rows ≡ []
    → All (λ s. p s ≡ false) rows
unfolding select_all
none_due p [] h = tt
none_due p (s ∷ rows) h = elim (Bool-cases (p s)) [
  | inl met ↦ absurd (ground (arith, met, h))
  | inr unmet ↦ (unmet, none_due p rows (rw unmet at h))
]

-- An entry of the tenant whose time has come
abbrev pub Waits : ℕ → ℕ → CrawlQueueEntry → Type 0
Waits tenant_id time r = (r.tenant_id ≡ tenant_id) × (r.scheduled_at ≤ time)

-- The lower priority number goes first, and of two that are the same the earlier time.
abbrev pub GoesFirst : CrawlQueueEntry → CrawlQueueEntry → Type 0
GoesFirst r s =
    (r.priority < s.priority) ⊎ ((r.priority ≡ s.priority) × (r.scheduled_at ≤ s.scheduled_at))

is_due_iff :
    (tenant_id time : ℕ) (r : CrawlQueueEntry)
    → (is_due tenant_id time r ≡ true) ↔ Waits tenant_id time r
is_due_iff tenant_id time r = ground arith

GoesFirst-of_first : (r s : CrawlQueueEntry) → comes_before s r ≡ false → GoesFirst r s
GoesFirst-of_first r s h = ground (arith, h)

All-map :
    {P Q : CrawlQueueEntry → Type 0} (rows : List CrawlQueueEntry)
    → ((s : CrawlQueueEntry) → P s → Q s)
    → All P rows
    → All Q rows
All-map [] f h = tt
All-map (s ∷ rows) f (p, h) = (f s p, All-map rows f h)

-- The entry that the queue gives is one of the tenant's whose time has come when the queue is read,
-- and every other such entry has a higher priority number, or the same one and no earlier time; the
-- queue gives none only if there is no such entry.
pub get_next_queue_entry-IsFirst :
    (e : Env) (client : DbClient) (w : World) (o : Option CrawlQueueEntry)
    → (get_next_queue_entry e client w).0 ≡ ok o
    → ((r : CrawlQueueEntry)
        → o ≡ some r
        → In r w.crawl_queue
          × Waits client.tenant_id (e.clock w.steps) r
          × All (λ s. Waits client.tenant_id (e.clock w.steps) s → GoesFirst r s) w.crawl_queue)
      × (o ≡ none → All (λ s. ¬ Waits client.tenant_id (e.clock w.steps) s) w.crawl_queue)
unfolding get_next_queue_entry ◌>>=◌ fetch now
get_next_queue_entry-IsFirst e client w o got =
    let due = is_due client.tenant_id (e.clock w.steps) in
    let iff = is_due_iff client.tenant_id (e.clock w.steps) in
    let same : o ≡ first_entry (select_all due w.crawl_queue) = ground arith in
    (
      λ r is.
          let (there, first) =
            first_entry-IsFirst (select_all due w.crawl_queue) r (sym same ∙ is) in
          let (queued, ready) = In-select_all due r w.crawl_queue there in
          (
            queued,
            (iff r).0 ready,
            All-map w.crawl_queue (λ s h waits. GoesFirst-of_first r s (h ((iff s).1 waits)))
                (All-select_all due (λ s. comes_before s r ≡ false) w.crawl_queue first),
          ),
      λ is.
          All-map w.crawl_queue (λ s idle waits. absurd (let due_now = (iff s).1 waits in cc))
            (none_due due w.crawl_queue
              (first_entry-none (select_all due w.crawl_queue) (sym same ∙ is))),
    )
