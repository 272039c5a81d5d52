-- ===== src/Crawl/Kept.antt =====
-- What `process_next_entry` leaves true of the database: what its parts leave true.
use lala_search.Prelude.{Option, none, some}
use lala_search.Prelude.Text.{Text}
use lala_search.Models.Crawl.{CrawlQueueEntry, CrawlErrorType}
use lala_search.World.{Database, World, Env}
use lala_search.World.Keeps.{Keeps, keeps_rules}
use lala_search.Crawl.Queue.{
  DbClient, delete_queue_entry, get_next_queue_entry, get_setting, is_crawling_enabled,
}
use lala_search.Crawl.Process.{
  Url, Outcome, crawled, failed, Stages, handle_crawl_failure, conclude, run_stages, process_found,
  process_due, process_next_entry,
}

module _ (e : Env) (client : DbClient) (parse_url : Text → Option Url) (stages : Stages)
    (P : Database → Type 0) (deletes : (r : CrawlQueueEntry) → Keeps P (delete_queue_entry e r))
    (handles : (r : CrawlQueueEntry) (t : CrawlErrorType) (message : Text)
      → Keeps P (handle_crawl_failure e client parse_url r t message))
    (crawls : (r : CrawlQueueEntry) (w : World) → P w.db → P (stages r w).1.db) where
  concludes : (r : CrawlQueueEntry) (o : Outcome) → Keeps P (conclude e client parse_url r o)
  unfolding conclude
  concludes r crawled = search keeps_rules
  concludes r (failed t message) = search (keeps_rules, handles) depth 9

  runs : (r : CrawlQueueEntry) → Keeps P (run_stages e client parse_url stages r)
  unfolding run_stages
  runs r = record { through = λ w h. crawls r w h }

  finds : (o : Option CrawlQueueEntry) → Keeps P (process_found e client parse_url stages o)
  unfolding process_found
  finds none = search keeps_rules
  finds (some r) = search (keeps_rules, deletes, runs, concludes) depth 9

  pub process_next_entry-Keeps : Keeps P (process_next_entry e client parse_url stages)
  unfolding process_next_entry is_crawling_enabled get_setting process_due get_next_queue_entry
  process_next_entry-Keeps = search (keeps_rules, finds) depth 14
