-- ===== src/Tests/Crawl.antt =====
-- The theorems on the queue at a small queue.
use lala_search.Prelude.{
  ℕ, ◌+◌, ◌^◌, ◌%◌, ◌≤◌, ◌≡◌, refl, ◌≢◌, true, false, Option, none, some, [], ◌∷◌, ◌++◌, All, inl,
  arith,
}
use lala_search.Prelude.Text.{Text, codes, text_eq}
use lala_search.Prelude.Table.{exists_row, select_all}
use lala_search.Models.Crawl.{CrawlQueueEntry, fetch_error, robots_disallowed}
use lala_search.World.{World, ok, tick, fetch, now, write_if, ◌>>=◌}
use lala_search.AuthService.Config.{minutes}
use lala_search.Crawl.Queue.{
  DbClient, earlier, first_entry, get_next_queue_entry, set_crawling_enabled, set_setting,
  upsert_setting, is_crawling_enabled,
}
use lala_search.Crawl.Process.{Url, failed, Stages, handle_crawl_failure, process_next_entry}
use lala_search.Crawl.Order.{In, Waits, GoesFirst, get_next_queue_entry-IsFirst}
use lala_search.Crawl.Retry.{handle_crawl_failure-retries, handle_crawl_failure-gives_up}
use lala_search.Crawl.Progress.{total_tries, count_processed, count_processed-le}
use lala_search.Crawl.Switch.{
  set_crawling_enabled-is_crawling_enabled, set_crawling_enabled-process_next_entry,
}
use lala_search.Tests.Auth.{env, world}

abbrev pub client : DbClient
client = record { tenant_id = 7; is_dev = true; tenant_index_capacity_bytes = none }

abbrev pub entry : ℕ → Text → ℕ → CrawlQueueEntry
entry i url attempts = record {
  queue_id = i;
  tenant_id = 7;
  priority = 2 ^ 31 + i;
  scheduled_at = 10;
  url = url;
  domain = codes "x.io";
  last_attempt_at = none;
  attempt_count = attempts;
  created_at = 1;
}

abbrev pub queue_world : World
queue_world = record world {
  db = record (world.db) { crawl_queue = entry 2 (codes "b") 0 ∷ entry 1 (codes "a") 4 ∷ [] };
}

abbrev pub no_url : Text → Option Url
no_url url = none

-- Every crawl fails.
abbrev pub failing : Stages
failing r w = (failed fetch_error (codes "no route"), w)

first_is : (get_next_queue_entry env client queue_world).0 ≡ ok (some (entry 1 (codes "a") 4))
unfolding get_next_queue_entry first_entry earlier select_all ◌>>=◌ fetch now
first_is = refl

get_next_queue_entry-IsFirst_example :
    ((r : CrawlQueueEntry)
      → some (entry 1 (codes "a") 4) ≡ some r
      → In r queue_world.crawl_queue
        × Waits 7 1000 r
        × All (λ s. Waits 7 1000 s → GoesFirst r s) queue_world.crawl_queue)
    × (some (entry 1 (codes "a") 4) ≡ none → All (λ s. ¬ Waits 7 1000 s) queue_world.crawl_queue)
get_next_queue_entry-IsFirst_example =
    get_next_queue_entry-IsFirst env client queue_world (some (entry 1 (codes "a") 4)) first_is

handle_crawl_failure-retries_example :
    (r : CrawlQueueEntry) × ((handle_crawl_failure env client no_url
        (entry 3 (codes "c") 2)
        fetch_error
        (codes "no")
        queue_world).1.crawl_queue
      ≡ queue_world.crawl_queue ++ r ∷ [])
    × (r.url ≡ codes "c")
    × (r.tenant_id ≡ 7)
    × (r.attempt_count ≡ 2 + 1)
    × (r.scheduled_at ≡ 1001 + minutes (2 ^ 2))
    × (r.priority ≡ (2 ^ 31 + 3 + 1) % 2 ^ 32)
unfolding exists_row text_eq
handle_crawl_failure-retries_example =
    handle_crawl_failure-retries env client no_url (entry 3 (codes "c") 2) fetch_error (codes "no")
      queue_world (λ p. ground (arith, p), λ p. ground (arith, p)) (ground arith) (λ n. refl) refl
      refl refl

handle_crawl_failure-gives_up_example :
    (handle_crawl_failure env client no_url
      (entry 3 (codes "c") 2)
      robots_disallowed
      (codes "no")
      queue_world).1.crawl_queue
    ≡ queue_world.crawl_queue
handle_crawl_failure-gives_up_example =
    handle_crawl_failure-gives_up env client no_url (entry 3 (codes "c") 2) robots_disallowed
      (codes "no") queue_world (inl (inl refl))

count_processed-le_example :
    count_processed env client no_url failing 100 queue_world ≤ total_tries queue_world.crawl_queue
count_processed-le_example =
    count_processed-le env client no_url failing (λ r w. refl) 100 queue_world

abbrev off_world : World
off_world = (set_crawling_enabled env client false queue_world).1

switched_off : set_crawling_enabled env client false queue_world ≡ (ok tt, off_world)
unfolding set_crawling_enabled set_setting exists_row write_if tick upsert_setting
switched_off = refl

set_crawling_enabled-is_crawling_enabled_example :
    (is_crawling_enabled env client off_world).0 ≡ ok false
set_crawling_enabled-is_crawling_enabled_example =
    set_crawling_enabled-is_crawling_enabled env client false queue_world off_world switched_off
      refl

set_crawling_enabled-process_next_entry_example :
    ((process_next_entry env client no_url failing off_world).0 ≢ ok true)
    × ((process_next_entry env client no_url failing off_world).1.db ≡ off_world.db)
set_crawling_enabled-process_next_entry_example =
    set_crawling_enabled-process_next_entry env client no_url failing queue_world off_world
      switched_off
