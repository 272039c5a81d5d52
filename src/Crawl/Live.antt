-- ===== src/Crawl/Live.antt =====
-- Entries that wait in the queue leave it.
use lala_search.Prelude.{
  ℕ, zero, suc, ◌≤◌, ◌<◌, ◌≡◌, refl, ap, ◌⊎◌, inl, inr, Bool, true, false, Option, none, some, List,
  [], ◌∷◌, All, All-append, arith, Bool-cases,
}
use lala_search.Prelude.Text.{Text, codes}
use lala_search.Prelude.Table.{select_one, select_all, delete_rows}
use lala_search.Models.Crawl.{CrawlQueueEntry, CrawlErrorType}
use lala_search.World.{
  Database, World, Env, ok, pure, continue, ignore, now, draw_uuid, fetch, write, tick, ◌>>=◌,
}
use lala_search.World.Keeps.{Keeps, Keeps-write, keeps_rules}
use lala_search.Crawl.Queue.{
  DbClient, has_queue_id, is_due, is_setting, first_entry, setting_value, enabled_by, get_setting,
  is_crawling_enabled, get_next_queue_entry, delete_queue_entry, log_crawl_error,
  requeue_with_retry, insert_queue_entry,
}
use lala_search.Crawl.Process.{
  Url, Outcome, crawled, failed, Stages, handle_crawl_failure, conclude, run_stages, process_found,
  process_due, process_next_entry,
}
use lala_search.Crawl.Order.{Waits, get_next_queue_entry-IsFirst}
use lala_search.Crawl.Kept.{process_next_entry-Keeps}
use lala_search.Crawl.Progress.{total_tries, processed, AddsNothing, handled_cases, process_step}

-- No entry of the tenant waits that was due at `time`.
abbrev pub Idle : ℕ → ℕ → List CrawlQueueEntry → Type 0
Idle tenant_id time rows = All (λ s. ¬ Waits tenant_id time s) rows

Idle-delete_rows :
    (tenant_id time : ℕ) (p : CrawlQueueEntry → Bool) (rows : List CrawlQueueEntry)
    → Idle tenant_id time rows
    → Idle tenant_id time (delete_rows p rows)
unfolding delete_rows
Idle-delete_rows tenant_id time p [] idle = tt
Idle-delete_rows tenant_id time p (r ∷ rows) (done, idle) =
    let rest = Idle-delete_rows tenant_id time p rows idle in
    elim (Bool-cases (p r)) [ inl met ↦ rw met rest | inr unmet ↦ rw unmet (done, rest) ]

Idle-earlier :
    (tenant_id time later : ℕ) (rows : List CrawlQueueEntry)
    → time ≤ later
    → Idle tenant_id later rows
    → Idle tenant_id time rows
Idle-earlier tenant_id time later [] h idle = tt
Idle-earlier tenant_id time later (r ∷ rows) h (done, idle) =
    (λ waits. done (waits.0, omega (arith, waits.1)), Idle-earlier tenant_id time later rows h idle)

total_tries-none : (rows : List CrawlQueueEntry) → total_tries rows ≤ 0 → rows ≡ []
unfolding total_tries
total_tries-none [] h = refl
total_tries-none (r ∷ rows) h = absurd (omega (arith, h))

Option-cases : {A : Type 0} (o : Option A) → (o ≡ none) ⊎ ((a : A) × (o ≡ some a))
Option-cases none = inl refl
Option-cases (some a) = inr (a, refl)

module _ (e : Env) (client : DbClient) (parse_url : Text → Option Url) where
  conclude-true :
      (entry : CrawlQueueEntry) (outcome : Outcome) (w : World)
      → (conclude e client parse_url entry outcome w).0 ≡ ok true
  unfolding conclude handle_crawl_failure ◌>>=◌ now draw_uuid ignore pure continue
  conclude-true entry crawled w = refl
  conclude-true entry (failed error_type message) w = ground arith

  -- Crawling is switched on in these settings.
  abbrev pub IsOn : Database → Type 0
  IsOn d =
      enabled_by client.is_dev (
        setting_value
          (select_one (is_setting client.tenant_id (codes "crawling_enabled")) d.settings))
      ≡ true

  module _ (stages : Stages) where
    -- The world after so many calls of `process_next_entry`
    unfoldable pub process_times : ℕ → World → World
    process_times zero w = w
    process_times (suc n) w = process_times n (process_next_entry e client parse_url stages w).1

    process_found-true :
        (entry : CrawlQueueEntry) (w : World)
        → e.query_fails w.steps ≡ false
        → (process_found e client parse_url stages (some entry) w).0 ≡ ok true
    unfolding process_found delete_queue_entry write run_stages ◌>>=◌ continue
    process_found-true entry w answers = rw answers (conclude-true entry _ _)

    process_next_entry-true :
        (entry : CrawlQueueEntry) (w : World)
        → ((step : ℕ) → e.query_fails step ≡ false)
        → IsOn w.db
        → first_entry (select_all (is_due client.tenant_id (e.clock (tick w).steps)) w.crawl_queue)
          ≡ some entry
        → (process_next_entry e client parse_url stages w).0 ≡ ok true
    unfolding process_next_entry process_due is_crawling_enabled get_setting get_next_queue_entry
        fetch tick pure now ◌>>=◌ continue
    process_next_entry-true entry w answers enabled due =
        rw (answers w.steps, enabled, answers (suc w.steps), due)
          (process_found-true entry _ (answers _))

    found_nothing :
        (w : World)
        → ((step : ℕ) → e.query_fails step ≡ false)
        → first_entry (select_all (is_due client.tenant_id (e.clock w.steps)) w.crawl_queue) ≡ none
        → (get_next_queue_entry e client w).0 ≡ ok none
    unfolding get_next_queue_entry fetch now ◌>>=◌ continue
    found_nothing w answers nothing = rw (answers w.steps, nothing) refl

    module _ (T : ℕ) (after : (step : ℕ) → T < e.clock step) where
      -- A call processes an entry, or none waits.
      busy_or_Idle :
          (w : World)
          → ((step : ℕ) → e.query_fails step ≡ false)
          → IsOn w.db
          → ((process_next_entry e client parse_url stages w).0 ≡ ok true)
            ⊎ Idle client.tenant_id T w.crawl_queue
      unfolding tick
      busy_or_Idle w answers enabled =
          elim (Option-cases (
            first_entry
              (select_all (is_due client.tenant_id (e.clock (tick w).steps)) w.crawl_queue))) [
                | inl nothing ↦ inr (
                    Idle-earlier client.tenant_id T (e.clock (tick w).steps) w.crawl_queue
                      (omega (arith, after (tick w).steps))
                      ((get_next_queue_entry-IsFirst e client (tick w) none
                          (found_nothing (tick w) answers nothing)).1
                        refl))
                | inr (entry, due) ↦ inl (process_next_entry-true entry w answers enabled due)
              ]

      abbrev StaysIdle : Database → Type 0
      StaysIdle d = Idle client.tenant_id T d.crawl_queue

      deletes-Idle : (r : CrawlQueueEntry) → Keeps StaysIdle (delete_queue_entry e r)
      unfolding delete_queue_entry
      deletes-Idle r = Keeps-write e _ (λ t d idle.
          Idle-delete_rows client.tenant_id T (has_queue_id r.queue_id) d.crawl_queue idle)

      -- A retry is put off until after `T`.
      handles-Idle :
          (r : CrawlQueueEntry) (t : CrawlErrorType) (message : Text)
          → Keeps StaysIdle (handle_crawl_failure e client parse_url r t message)
      handles-Idle r t message = record {
        through = λ w idle. elim (handled_cases e client parse_url r t message w) [
          | inl same ↦ rw same idle
          | inr (again, added) ↦ rw added (
              All-append (λ s. ¬ Waits client.tenant_id T s) w.crawl_queue (_ ∷ []) idle
                (λ waits. absurd (omega (arith, waits.1, after (suc w.steps))), tt))
        ];
      }

      module _ (nothing : AddsNothing e client parse_url stages)
          (same_settings : (r : CrawlQueueEntry) (w : World)
            → (stages r w).1.settings ≡ w.settings) where
        next-Idle :
            (w : World)
            → StaysIdle w.db
            → StaysIdle (process_next_entry e client parse_url stages w).1.db
        next-Idle w idle =
            (process_next_entry-Keeps e client parse_url stages StaysIdle deletes-Idle handles-Idle
                (λ r v h. rw (nothing r v) h)).through
              w idle

        handles-IsOn :
            (r : CrawlQueueEntry) (t : CrawlErrorType) (message : Text)
            → Keeps IsOn (handle_crawl_failure e client parse_url r t message)
        unfolding handle_crawl_failure log_crawl_error requeue_with_retry insert_queue_entry
        handles-IsOn r t message = search keeps_rules depth 20

        deletes-IsOn : (r : CrawlQueueEntry) → Keeps IsOn (delete_queue_entry e r)
        unfolding delete_queue_entry
        deletes-IsOn r = search keeps_rules

        next-IsOn :
            (w : World) → IsOn w.db → IsOn (process_next_entry e client parse_url stages w).1.db
        next-IsOn w on =
            (process_next_entry-Keeps e client parse_url stages IsOn deletes-IsOn handles-IsOn
                (λ r v h. rw (same_settings r v) h)).through
              w on

        times-Idle : (n : ℕ) (w : World) → StaysIdle w.db → StaysIdle (process_times n w).db
        unfolding process_times
        times-Idle zero w idle = idle
        times-Idle (suc n) w idle = times-Idle n _ (next-Idle w idle)

        -- Let the stages of the crawls add nothing to the queue and leave the settings as they are,
        -- and let the database answer, crawling be switched on and all calls come after the time
        -- `T`. Then after as many calls of `process_next_entry` as the queue's entries have tries
        -- left, or more, no entry of the tenant is in the queue that is due at `T`, whatever the
        -- crawls end in.
        pub process_times-Idle :
            ((step : ℕ) → e.query_fails step ≡ false)
            → (n : ℕ) (w : World) → IsOn w.db
            → total_tries w.crawl_queue ≤ n
            → Idle client.tenant_id T (process_times n w).crawl_queue
        unfolding process_times
        process_times-Idle answers zero w on h = rw (total_tries-none w.crawl_queue h) tt
        process_times-Idle answers (suc n) w on h = elim (busy_or_Idle w answers on) [
          | inr idle ↦ times-Idle n _ (next-Idle w idle)
          | inl busy ↦ process_times-Idle answers n _ (next-IsOn w on) (
              omega (arith, h, process_step e client parse_url stages nothing w, ap processed busy))
        ]
