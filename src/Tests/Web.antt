-- ===== src/Tests/Web.antt =====
-- The theorems on the stages of a crawl at a small web.
use lala_search.Prelude.{
  ◌==◌, ◌≡◌, refl, arith, ◌↔◌, Bool, true, false, Option, none, some, List, [], ◌∷◌,
}
use lala_search.Prelude.Text.{Text, codes, to_lowercase, lower_char, contains, starts_with}
use lala_search.Prelude.Table.{select_one, exists_row}
use lala_search.Models.Crawl.{fetch_error, CrawlQueueEntry}
use lala_search.World.{SiteTables, ok}
use lala_search.Crawl.Queue.{DbClient, is_setting, setting_value, enabled_by}
use lala_search.Crawl.Process.{Stages, failed, Url}
use lala_search.Crawl.Order.{In}
use lala_search.Crawl.Web.{CrawlResult, Web, QueueProcessor}
use lala_search.Crawl.Robots.{
  merge, parse_robots_directive_string, parse_x_robots_tag, extract_robots_meta_directives,
  get_robots_directives,
}
use lala_search.Crawl.Links.{extract_links, enqueue_meet_links}
use lala_search.Crawl.Discovered.{with_queued}
use lala_search.Crawl.Found.{AreDiscovered, enqueue_meet_links-adds}
use lala_search.Crawl.Extracted.{IsAscending, SomeLeadsTo, extract_links_correct}
use lala_search.Crawl.Stages.{process_crawl_entry}
use lala_search.Crawl.Respect.{process_crawl_entry-noindex}
use lala_search.Crawl.Progress.{total_tries}
use lala_search.Crawl.Live.{Idle, process_times, process_times-Idle}
use lala_search.Tests.Auth.{env}
use lala_search.Tests.Crawl.{client, entry, queue_world, no_url, failing}
use lala_search.Tests.Site.{site_world, page}
use lala_search.Models.Pages.{PageRow}
use lala_search.Site.Pages.{to_page_row}

abbrev url : Url
url = record { host_str = some (codes "x.io"); port = none; path = codes "/a" }

abbrev fetched : Bool → Option Text → CrawlResult
fetched allowed tag = record {
  url = codes "https://x.io/";
  allowed_by_robots = allowed;
  content = some (codes "<p>");
  error = none;
  x_robots_tag = tag;
}

abbrev web : CrawlResult → Web
web result = record {
  parse_url = λ s. some url;
  join_url = λ base href. some href;
  anchors = λ html.
      record { rel = none; href = codes "b" }
      ∷ record { rel = none; href = codes "a" }
      ∷ record { rel = some (codes "nofollow"); href = codes "c" }
      ∷ [];
  metas = λ html. [];
  text_nodes = λ html. [];
  extract_title = λ html. none;
  md5_hex = λ s. s;
  json_len = λ document. 10;
  display = λ x. [];
  timestamp = λ t. t;
  crawl_url = λ link agent step. ok result;
}

abbrev processor : QueueProcessor
processor = record {
  db_client = client;
  search_client = some (record { index_fails = λ step. false });
  storage_client = some (record {
    compress_content = false;
    compress_min_size = 0;
    compress_fails = λ step. false;
    put_fails = λ step. false;
  });
  user_agent = codes "lala";
  tenant_id = none;
}

abbrev the_web : Web
the_web = web (fetched true none)

abbrev roomy : DbClient
roomy = record client { tenant_index_capacity_bytes = some (codes "9") }

enqueue_meet_links-adds_example :
    (added : List CrawlQueueEntry) × ((enqueue_meet_links the_web env roomy
        (codes "<p>")
        (entry 3 (codes "c") 2)
        site_world).1.db
      ≡ with_queued added site_world.db)
    × AreDiscovered the_web env roomy
        (entry 3 (codes "c") 2)
        site_world.db
        (extract_links the_web (codes "<p>") (codes "c"))
        added
enqueue_meet_links-adds_example =
    enqueue_meet_links-adds the_web env roomy (codes "<p>") (entry 3 (codes "c") 2) site_world

extract_links_correct_example :
    IsAscending (extract_links the_web (codes "<p>") (codes "c"))
    × ((link : Text)
        → In link (extract_links the_web (codes "<p>") (codes "c"))
          ↔ SomeLeadsTo the_web (codes "c") link (the_web.anchors (codes "<p>")))
extract_links_correct_example = extract_links_correct the_web (codes "<p>") (codes "c")

abbrev shy_web : Web
shy_web = web (fetched true (some (codes "NoIndex")))

says_noindex :
    (get_robots_directives (shy_web.metas (codes "<p>")) (some (codes "NoIndex"))).noindex ≡ true
unfolding get_robots_directives merge parse_x_robots_tag parse_robots_directive_string
    extract_robots_meta_directives to_lowercase lower_char contains starts_with
says_noindex = refl

process_crawl_entry-noindex_example :
    (process_crawl_entry shy_web env processor (entry 3 (codes "c") 2) site_world).1.indexed
    ≡ site_world.indexed
process_crawl_entry-noindex_example =
    process_crawl_entry-noindex shy_web env processor (entry 3 (codes "c") 2)
      (fetched true (some (codes "NoIndex"))) (codes "<p>") site_world refl refl says_noindex

switched_on :
    enabled_by true (setting_value (select_one (is_setting 7 (codes "crawling_enabled")) [])) ≡ true
unfolding enabled_by setting_value select_one
switched_on = refl

process_times-Idle_example :
    Idle 7 900 (process_times env client no_url failing 12 queue_world).crawl_queue
unfolding total_tries
process_times-Idle_example =
    process_times-Idle env client no_url failing 900 (λ step. omega arith) (λ r w. refl)
      (λ r w. refl) (λ step. refl) 12 queue_world switched_on (omega arith)

-- Every crawl fails after it has stored a page.
abbrev storing : Stages
storing s w = (
  failed fetch_error (codes "no route"),
  record w {
    db = record (w.db) {
      site = record (w.db.site) {
        crawled_pages =
            to_page_row (record page { page_id = s.queue_id }) ∷ w.db.site.crawled_pages;
      };
    };
  },
)

abbrev HasPage : SiteTables → Type 0
HasPage t = exists_row (λ (p : PageRow). p.page_id == 1) t.crawled_pages ≡ true
