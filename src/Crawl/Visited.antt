-- ===== src/Crawl/Visited.antt =====
-- Entries that wait in the queue are crawled.
use lala_search.Prelude.{◌⊎◌}
use lala_search.Prelude.Text.{Text}
use lala_search.Models.Crawl.{CrawlQueueEntry}
use lala_search.World.{SiteTables, Database, World}
use lala_search.World.Keeps.{Keeps}
use lala_search.Crawl.Queued.{IsQueued}

module _ (r : CrawlQueueEntry) where
  module _ (P : SiteTables → Type 0) where
    -- The entry waits, or its crawl has left its mark.
    abbrev pub WaitsOrCrawled : Database → Type 0
    WaitsOrCrawled d = IsQueued r d.crawl_queue ⊎ P d.site
