-- ===== src/Lib.antt =====
-- The agent of lala-search, a self-hosted search engine (lala-agent, in Rust): its authentication,
-- its crawler's queue and stages, its tenants with their domains, pages and undo history, and the
-- handlers that use them, modelled from the sources as functions on the contents of the database.
--
-- The agent is an HTTP server over PostgreSQL. `services/auth_db.rs` holds the queries of the
-- accounts, `services/auth.rs` the flows that are built of them (magic links, sessions, invitations,
-- members), and `models/auth.rs` the data and the pure decisions. `services/db.rs` holds what
-- belongs to a tenant: the crawl queue, the settings, the domains that may be crawled, the pages and
-- the history of actions, which can be undone and redone. `services/queue_processor.rs` takes one
-- entry after another from the queue, crawls it, stores and indexes the page, queues the links that
-- it found, and puts the entry back if that failed. `app.rs` finds out for each request who asks and
-- for which tenant, and runs the handlers on that tenant's part of the database.
--
--   Prelude        tests on numbers, text as code points, a table as the list of its rows, signed
--                  integers (`i32`, `i64`) and their decimal texts
--   Models         lala-agent/src/models: Models.Auth is auth.rs (roles, users, sessions, tokens);
--                  Models.Throttle is the throttle of the letters to one address, with the row that
--                  `consume_magic_link_send_attempt` computes; Models.Crawl and Models.Pages are of
--                  db.rs and storage.rs, Models.History of action_history.rs, Models.Search of
--                  search.rs
--   World          the database, the outbox and the environment, and the monad of the methods
--   AuthDb         lala-agent/src/services/auth_db.rs, a function for each query
--   AuthService    lala-agent/src/services/auth.rs, a function for each method; a method that is
--                  long is cut in two where a check or a lookup ends (`redeem`, `enter`, `join`,
--                  `enroll`, `remove_target`), and the parts are composed as the source runs them
--   Crawl          Crawl.Queue: the queue, the error log and the settings of
--                  lala-agent/src/services/db.rs; Crawl.Process: `process_next_entry` and
--                  `handle_crawl_failure` of lala-agent/src/services/queue_processor.rs; Crawl.Robots,
--                  Crawl.Links and Crawl.Stages: the robots directives, the links and the stages of
--                  `process_crawl_entry` in that file; Crawl.Web: what they use of other code
--   Site           the rest of lala-agent/src/services/db.rs: Site.Tenants, Site.Domains, Site.Pages,
--                  Site.Capacity, Site.History, and Site.Rollback with `rollback_action`
--   Http           lala-agent/src/app.rs: Http.Access, the extractors and the permission of changes;
--                  Http.Queueing, Http.Settings and Http.Undo, a function for each handler
--   Tests          a small organization, a site with pages and links, requests, and the theorems
--                  at work on them
--
-- A method is an action of `World.M`: it gets the world and returns a result and the world after
-- it. What it wrote before it failed stays written, as each query of the source is a transaction
-- of its own. A query may fail at any step (`query_fails`), and so may a letter (`mail_fails`);
-- the theorems hold whichever fail unless they say that the database answers. The digest of
-- tokens, the random tokens, the identifiers and the clock are the environment's; a theorem that
-- needs a fresh identifier says so, and nothing else is assumed of them. An `unwrap` or `expect`
-- that fails is the failure `panicked`; a handler fails with `status` and the number of the answer.
--
-- Times are nanoseconds and identifiers are numbers. The columns of the database hold
-- microseconds and round what is stored; here they keep it as it is. The counters of the
-- throttle (`i32`) are numbers: a row's counters are bounded by the configured limits, which are
-- `i32`, so no addition of the source overflows. The priority of a queue's entry (`i32`) is held
-- as the number that is larger by 2 ^ 31 and wraps around at 2 ^ 32. The capacity of the index
-- is an integer that an `i64` holds. `process_next_entry` is given the stages of a crawl, of
-- which `Crawl.Stages.process_crawl_entry` is one, and a theorem says what it asks of them. No
-- function needs fuel: a loop runs over a list, and the endless loop of the queue processor is
-- taken call by call.
--
-- A query that asks for one row takes the first that matches, and a list of rows comes in the
-- table's order, which the source leaves open; where the source orders the rows, those that tie
-- stay in the table's order. Keys of the tables are checked where a statement inserts: a
-- duplicate key or a missing reference makes it fail. Concurrent requests run one after another
-- here, and a transaction as a whole. The snapshots of the history, which are JSON objects in
-- the source, are lists of fields with texts or null.
--
-- Parameters are the crates that parse URLs, HTML and UUIDs and compute MD5 digests, the fetch of a
-- page (`crawl_url`), `extract_title`, the search server and the storage, which fail at some steps.
--
-- Not modelled: reading the configuration from the environment, log lines, the text of letters and
-- of the HTTP answers; the routes of lala-agent/src/routes/auth.rs and the session middleware; the
-- fetching of pages, the cache of robots.txt and `extract_title`; the search queries, the handlers
-- of the version, the search and the recent pages; what the storage's bucket holds; and the front
-- end.
pub mod Prelude
pub mod Models
pub mod World
pub mod AuthDb
pub mod AuthService
pub mod Crawl
pub mod Site
pub mod Http
pub mod Tests
