-- ===== src/Crawl/Queued.antt =====
-- An entry that stays in the queue: what a removal or an addition of another one leaves true.
use lala_search.Prelude.{
  ℕ, ◌≡◌, sym, subst, inl, inr, Bool, true, false, List, [], ◌∷◌, ◌++◌, ◌==◌, All, All-append,
  arith, Bool-cases,
}
use lala_search.Prelude.Table.{exists_row, delete_rows}
use lala_search.Models.Crawl.{CrawlQueueEntry}
use lala_search.Crawl.Queue.{has_queue_id}
use lala_search.Crawl.Order.{In}

In-append :
    (r s : CrawlQueueEntry) (rows : List CrawlQueueEntry) → In r rows → In r (rows ++ s ∷ [])
In-append r s [] h = absurd h
In-append r s (t ∷ rows) (inl is) = inl is
In-append r s (t ∷ rows) (inr more) = inr (In-append r s rows more)

In-delete_rows :
    (p : CrawlQueueEntry → Bool) (r : CrawlQueueEntry) (rows : List CrawlQueueEntry)
    → p r ≡ false
    → In r rows
    → In r (delete_rows p rows)
unfolding delete_rows
In-delete_rows p r [] h there = absurd there
In-delete_rows p r (s ∷ rows) h (inl is) =
    let kept : p s ≡ false = subst (λ t. p t ≡ false) is h in rw kept (inl is)
In-delete_rows p r (s ∷ rows) h (inr more) =
    let rest = In-delete_rows p r rows h more in
    elim (Bool-cases (p s)) [ inl met ↦ rw met rest | inr unmet ↦ rw unmet (inr rest) ]

exists_row-In :
    (p : CrawlQueueEntry → Bool) (r : CrawlQueueEntry) (rows : List CrawlQueueEntry)
    → p r ≡ true
    → In r rows
    → exists_row p rows ≡ true
unfolding exists_row
exists_row-In p r [] h there = absurd there
exists_row-In p r (s ∷ rows) h (inl is) =
    let met : p s ≡ true = subst (λ t. p t ≡ true) is h in ground (arith, met)
exists_row-In p r (s ∷ rows) h (inr more) = ground (arith, exists_row-In p r rows h more)

pub All-In :
    (P : CrawlQueueEntry → Type 0) (r : CrawlQueueEntry) (rows : List CrawlQueueEntry)
    → All P rows
    → In r rows
    → P r
All-In P r [] all there = absurd there
All-In P r (s ∷ rows) (p, all) (inl is) = subst P (sym is) p
All-In P r (s ∷ rows) (p, all) (inr more) = All-In P r rows all more

All-delete_rows :
    (P : CrawlQueueEntry → Type 0) (q : CrawlQueueEntry → Bool) (rows : List CrawlQueueEntry)
    → All P rows
    → All P (delete_rows q rows)
unfolding delete_rows
All-delete_rows P q [] all = tt
All-delete_rows P q (s ∷ rows) (p, all) =
    let rest = All-delete_rows P q rows all in
    elim (Bool-cases (q s)) [ inl met ↦ rw met rest | inr unmet ↦ rw unmet (p, rest) ]

module _ (r : CrawlQueueEntry) where
  -- The entry is in the queue, and no other one has its identifier: the table's primary key.
  abbrev pub IsQueued : List CrawlQueueEntry → Type 0
  IsQueued rows = In r rows × All (λ s. s.queue_id ≡ r.queue_id → s ≡ r) rows

  pub IsQueued-delete_rows :
      (i : ℕ) (rows : List CrawlQueueEntry)
      → i == r.queue_id ≡ false
      → IsQueued rows
      → IsQueued (delete_rows (has_queue_id i) rows)
  IsQueued-delete_rows i rows apart (there, alone) = (
    In-delete_rows (has_queue_id i) r rows (ground (arith, apart)) there,
    All-delete_rows (λ s. s.queue_id ≡ r.queue_id → s ≡ r) (has_queue_id i) rows alone,
  )

  pub IsQueued-append :
      (s : CrawlQueueEntry) (rows : List CrawlQueueEntry)
      → exists_row (has_queue_id s.queue_id) rows ≡ false
      → IsQueued rows
      → IsQueued (rows ++ s ∷ [])
  IsQueued-append s rows fresh (there, alone) = (
    In-append r s rows there,
    All-append (λ t. t.queue_id ≡ r.queue_id → t ≡ r) rows (s ∷ []) alone
        (
          λ same. absurd (
              let met : has_queue_id s.queue_id r ≡ true = ground (arith, same) in
              let known = exists_row-In (has_queue_id s.queue_id) r rows met there in cc),
          tt,
        ),
  )
