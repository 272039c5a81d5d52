-- ===== src/Crawl/Progress.antt =====
-- The queue runs empty when nothing is added to it.
use lala_search.Prelude.{
  ℕ, zero, ◌+◌, ◌-◌, ◌≤◌, ◌<◌, suc, ◌≡◌, refl, ◌⊎◌, sym, ap, subst, Bool, true, false, Option, none,
  some, List, [], ◌∷◌, ◌++◌, arith, inl, inr, Bool-cases,
}
use lala_search.Prelude.Text.{Text}
use lala_search.Prelude.Table.{delete_rows}
use lala_search.Models.Crawl.{
  CrawlQueueEntry, CrawlErrorType, fetch_error, storage_error, database_error, search_index_error,
  robots_disallowed, invalid_url, unknown,
}
use lala_search.World.{
  World, Env, Result, ok, err, tick, pure, ignore, continue, now, draw_uuid, fetch, write, write_if,
  ◌>>=◌,
}
use lala_search.Crawl.Queue.{
  DbClient, has_queue_id, retry_entry, insert_queue_entry, delete_queue_entry, log_crawl_error,
  requeue_with_retry, get_next_queue_entry, is_crawling_enabled, get_setting,
}
use lala_search.Crawl.Process.{
  Url, Outcome, crawled, failed, Stages, should_retry, handle_crawl_failure, conclude, run_stages,
  process_found, process_due, process_next_entry,
}
use lala_search.Crawl.Order.{In, get_next_queue_entry-IsFirst}

-- How often an entry may still be tried, and how often all entries of a queue may.
abbrev pub tries : CrawlQueueEntry → ℕ
tries r = suc (5 - r.attempt_count)

unfoldable pub total_tries : List CrawlQueueEntry → ℕ
total_tries [] = 0
total_tries (r ∷ rows) = tries r + total_tries rows

total_tries-append :
    (rows : List CrawlQueueEntry) (r : CrawlQueueEntry)
    → total_tries (rows ++ r ∷ []) ≡ total_tries rows + tries r
unfolding total_tries
total_tries-append [] r = omega arith
total_tries-append (s ∷ rows) r = omega (arith, total_tries-append rows r)

module _ (i : ℕ) where
  total_tries-delete_rows :
      (rows : List CrawlQueueEntry)
      → total_tries (delete_rows (has_queue_id i) rows) ≤ total_tries rows
  unfolding total_tries delete_rows
  total_tries-delete_rows [] = omega arith
  total_tries-delete_rows (r ∷ rows) = ground (arith, total_tries-delete_rows rows)

  total_tries-deleted :
      (r : CrawlQueueEntry) (rows : List CrawlQueueEntry)
      → In r rows
      → r.queue_id ≡ i
      → total_tries (delete_rows (has_queue_id i) rows) + tries r ≤ total_tries rows
  unfolding total_tries delete_rows
  total_tries-deleted r [] h is = absurd h
  total_tries-deleted r (s ∷ rows) (inl same) is =
      subst
        (λ t.
          total_tries (delete_rows (has_queue_id i) (t ∷ rows)) + tries r ≤ total_tries (t ∷ rows))
        same (ground (arith, is, total_tries-delete_rows rows))
  total_tries-deleted r (s ∷ rows) (inr rest) is =
      ground (arith, total_tries-deleted r rows rest is)

again_below :
    (t : CrawlErrorType) (entry : CrawlQueueEntry)
    → should_retry t entry ≡ true
    → entry.attempt_count < 5
unfolding should_retry
again_below fetch_error entry h = ground (arith, h)
again_below storage_error entry h = ground (arith, h)
again_below database_error entry h = ground (arith, h)
again_below search_index_error entry h = ground (arith, h)
again_below robots_disallowed entry h = absurd (ground (arith, h))
again_below invalid_url entry h = absurd (ground (arith, h))
again_below unknown entry h = ground (arith, h)

world_continue : (r : Result (Unit {0})) (w : World) → (continue r (λ _. pure true) w).1 ≡ w
unfolding continue pure
world_continue (ok a) w = refl
world_continue (err x) w = refl

-- One for a call that processed an entry.
abbrev pub processed : Result Bool → ℕ
processed (ok true) = 1
processed _ = 0

processed-le : (r : Result Bool) → processed r ≤ 1
processed-le (ok true) = omega arith
processed-le (ok false) = omega arith
processed-le (err x) = omega arith

module _ (e : Env) (client : DbClient) (parse_url : Text → Option Url) where
  pub handled_cases :
      (entry : CrawlQueueEntry) (t : CrawlErrorType) (message : Text) (w : World)
      → ((handle_crawl_failure e client parse_url entry t message w).1.crawl_queue ≡ w.crawl_queue)
        ⊎ ((should_retry t entry ≡ true)
            × ((handle_crawl_failure e client parse_url entry t message w).1.crawl_queue
                ≡ w.crawl_queue
                  ++ retry_entry entry (e.uuid (suc w.uuids_drawn)) (e.clock (suc w.steps)) ∷ []))
  unfolding handle_crawl_failure log_crawl_error requeue_with_retry insert_queue_entry ◌>>=◌ ignore
      now draw_uuid write_if tick pure
  handled_cases entry t message w = ground arith

  total_tries-handled :
      (entry : CrawlQueueEntry) (t : CrawlErrorType) (message : Text) (w : World)
      → total_tries (handle_crawl_failure e client parse_url entry t message w).1.crawl_queue + 1
        ≤ total_tries w.crawl_queue + tries entry
  total_tries-handled entry t message w = elim (handled_cases entry t message w) [
    | inl same ↦ rw same (omega arith)
    | inr (again, added) ↦
        rw
          (
            added,
            total_tries-append w.crawl_queue
                (retry_entry entry (e.uuid (suc w.uuids_drawn)) (e.clock (suc w.steps))),
          )
          (omega (arith, again_below t entry again))
  ]

  total_tries-conclude :
      (entry : CrawlQueueEntry) (o : Outcome) (w : World)
      → total_tries (conclude e client parse_url entry o w).1.crawl_queue + 1
        ≤ total_tries w.crawl_queue + tries entry
  unfolding conclude ◌>>=◌ pure
  total_tries-conclude entry crawled w = omega arith
  total_tries-conclude entry (failed t message) w =
      let (r, w₁) = handle_crawl_failure e client parse_url entry t message w in
      subst (λ (v : World). total_tries v.crawl_queue + 1 ≤ total_tries w.crawl_queue + tries entry)
        (sym (world_continue r w₁)) (total_tries-handled entry t message w)

  module _ (stages : Stages) where
    -- The stages put nothing into the queue.
    abbrev pub AddsNothing : Type 0
    AddsNothing =
        (entry : CrawlQueueEntry) (w : World) → (stages entry w).1.crawl_queue ≡ w.crawl_queue

    total_tries-found :
        AddsNothing
        → (entry : CrawlQueueEntry) (w : World) → In entry w.crawl_queue
        → e.query_fails w.steps ≡ false
        → total_tries (process_found e client parse_url stages (some entry) w).1.crawl_queue + 1
          ≤ total_tries w.crawl_queue
    unfolding process_found delete_queue_entry write run_stages ◌>>=◌ tick
    total_tries-found nothing entry w there answers =
        let w₁ : World = tick (record w {
          db = record (w.db) {
            crawl_queue = delete_rows (has_queue_id entry.queue_id) w.crawl_queue;
          };
        }) in
        let (o, w₂) = stages entry w₁ in
        rw answers (
          omega (
            arith,
            total_tries-conclude entry o w₂,
            ap total_tries (nothing entry w₁),
            total_tries-deleted entry.queue_id entry w.crawl_queue there refl,
          ))

    found_or_failed :
        AddsNothing
        → (entry : CrawlQueueEntry) (w : World) → In entry w.crawl_queue
        → total_tries (process_found e client parse_url stages (some entry) w).1.crawl_queue
            + processed (process_found e client parse_url stages (some entry) w).0
          ≤ total_tries w.crawl_queue
    found_or_failed nothing entry w there = elim (Bool-cases (e.query_fails w.steps)) [
      | inl fails ↦
          unfold process_found delete_queue_entry write ◌>>=◌ tick in ground (arith, fails)
      | inr answers ↦ omega (
        arith,
        total_tries-found nothing entry w there answers,
        processed-le (process_found e client parse_url stages (some entry) w).0,
      )
    ]

    -- After a read of the queue, whatever it gave.
    step_after :
        AddsNothing
        → (r : Result (Option CrawlQueueEntry)) (w : World)
        → ((entry : CrawlQueueEntry) → r ≡ ok (some entry) → In entry w.crawl_queue)
        → total_tries (continue r (process_found e client parse_url stages) w).1.crawl_queue
            + processed (continue r (process_found e client parse_url stages) w).0
          ≤ total_tries w.crawl_queue
    unfolding continue
    step_after nothing (err x) w h = omega arith
    step_after nothing (ok none) w h = unfold process_found pure in omega arith
    step_after nothing (ok (some entry)) w h = found_or_failed nothing entry w (h entry refl)

    next-queue : (w : World) → (get_next_queue_entry e client w).1.crawl_queue ≡ w.crawl_queue
    unfolding get_next_queue_entry ◌>>=◌ now fetch tick
    next-queue w = ground arith

    due_step :
        AddsNothing
        → (w : World)
        → total_tries (process_due e client parse_url stages w).1.crawl_queue
            + processed (process_due e client parse_url stages w).0
          ≤ total_tries w.crawl_queue
    unfolding process_due ◌>>=◌
    due_step nothing w =
        let (r, w₁) = get_next_queue_entry e client w in
        let queued : (entry : CrawlQueueEntry) → r ≡ ok (some entry) → In entry w₁.crawl_queue =
          λ entry is.
            subst (λ q. In entry q) (sym (next-queue w))
              ((get_next_queue_entry-IsFirst e client w (some entry) is).0 entry refl).0 in
        omega (arith, step_after nothing r w₁ queued, ap total_tries (next-queue w))

    -- One call never raises the tries that are left, and takes one at least if it processed an
    -- entry.
    pub process_step :
        AddsNothing
        → (w : World)
        → total_tries (process_next_entry e client parse_url stages w).1.crawl_queue
            + processed (process_next_entry e client parse_url stages w).0
          ≤ total_tries w.crawl_queue
    unfolding process_next_entry is_crawling_enabled get_setting ◌>>=◌ fetch pure tick
    process_step nothing w = ground (arith, due_step nothing (tick w))

    -- How many of the next `n` calls processed an entry.
    unfoldable pub count_processed : ℕ → World → ℕ
    count_processed zero w = 0
    count_processed (suc n) w =
        processed (process_next_entry e client parse_url stages w).0
        + count_processed n (process_next_entry e client parse_url stages w).1

    -- When the stages of the crawls add nothing to the queue, then of any number of calls of
    -- `process_next_entry`, whatever they end in and whichever queries fail, no more process an
    -- entry than the tries that the queue's entries have left: six for a new one, one less for each
    -- attempt that was made, but one at least.
    pub count_processed-le :
        AddsNothing → (n : ℕ) (w : World) → count_processed n w ≤ total_tries w.crawl_queue
    unfolding count_processed
    count_processed-le nothing zero w = omega arith
    count_processed-le nothing (suc n) w =
        let w₁ = (process_next_entry e client parse_url stages w).1 in
        omega (arith, process_step nothing w, count_processed-le nothing n w₁)
