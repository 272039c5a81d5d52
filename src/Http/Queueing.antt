-- ===== src/Http/Queueing.antt =====
-- lala-agent/src/app.rs: the handlers that queue URLs and change the allowed domains.
use lala_search.Prelude.{ℕ, ◌^◌, Option, none, some, List, ◌++◌, length, if◌then◌else◌}
use mathlib.Core.Option
use lala_search.Prelude.Text.{Text, codes, is_empty_text}
use lala_search.Prelude.Integers.{leb_ℤ}
use lala_search.Models.Crawl.{CrawlQueueEntry}
use lala_search.Models.History.{ActionRecord, create, delete, allowed_domain}
use lala_search.World.{
  Env, M, pure, raise, or_raise, as_status, status, attempt, now, draw_uuid, ◌>>=◌, ◌>>◌,
}
use lala_search.Crawl.Queue.{DbClient, insert_queue_entry}
use lala_search.Crawl.Process.{Url}
use lala_search.Site.Domains.{
  DomainInfo, domain_snapshot, insert_allowed_domain, delete_allowed_domain, list_allowed_domains,
  is_domain_allowed, get_allowed_domain_snapshot,
}
use lala_search.Site.Pages.{crawled_page_exists}
use lala_search.Site.Capacity.{get_index_usage_bytes, get_index_capacity_bytes}
use lala_search.Site.History.{record_action}
use lala_search.Http.Access.{
  AppState, Request, TenantAccess, tenant_db, tenant_access, allowed_domain_added_by,
}

-- `o.ok().map(|r| r.action_id)`
abbrev pub id_of : Option ActionRecord → Option ℕ
id_of o = Option.map (λ (r : ActionRecord). r.action_id) o

abbrev pub flatten : {A : Type 0} → Option (Option A) → Option A
flatten none = none
flatten (some o) = o

module _ (parse_url : Text → Option Url) (e : Env) where
  module _ (db : DbClient) where
    abbrev pub requested_entry : Text → ℕ → Text → ℕ → ℕ → CrawlQueueEntry
    requested_entry url priority domain queue_id time = record {
      queue_id = queue_id;
      tenant_id = db.tenant_id;
      priority = priority;
      scheduled_at = time;
      url = url;
      domain = domain;
      last_attempt_at = none;
      attempt_count = 0;
      created_at = time;
    }

    unfoldable pub require_capacity : M (Unit {0})
    require_capacity = do
      usage_bytes ← as_status 500 (get_index_usage_bytes e db)
      max_bytes ← as_status 500 (get_index_capacity_bytes e db)
      if leb_ℤ max_bytes usage_bytes then raise (status 409) else pure tt

    unfoldable pub queue_requested : Text → ℕ → Text → M Text
    queue_requested url priority domain = do
      time ← now e
      queue_id ← draw_uuid e
      as_status 500 (insert_queue_entry e (requested_entry url priority domain queue_id time))
      pure domain

    -- The host without its port stands for the domain.
    unfoldable pub queue_url_for_crawling : Text → ℕ → M Text
    queue_url_for_crawling url priority = do
      parsed_url ← or_raise (status 400) (parse_url url)
      domain ← or_raise (status 400) parsed_url.host_str
      page_exists ← as_status 500 (crawled_page_exists e db domain parsed_url.path)
      if page_exists then pure tt else require_capacity
      queue_requested url priority domain

    unfoldable pub add_to_queue : Text → ℕ → M Text
    add_to_queue url priority = do
      parsed_url ← or_raise (status 400) (parse_url url)
      domain ← or_raise (status 400) parsed_url.host_str
      is_allowed ← as_status 500 (is_domain_allowed e db domain)
      if is_allowed then queue_url_for_crawling url priority >> pure domain else raise (status 403)

    -- The row comes first, then the queue, then the history, whose failure is passed over.
    unfoldable pub add_domain : TenantAccess → Text → Option Text → M (Option ℕ)
    add_domain access domain notes = if is_empty_text domain then raise (status 400) else do
      let added_by = allowed_domain_added_by access.user
      as_status 500 (insert_allowed_domain e db domain added_by notes)
      queue_url_for_crawling (codes "https://" ++ domain ++ codes "/") (2 ^ 31)
      recorded ← attempt (
          record_action e db allowed_domain create domain none none
            (some (domain_snapshot domain (some added_by) notes)) (codes "Added domain " ++ domain)
            none)
      pure (id_of recorded)

    unfoldable pub delete_domain : Text → M (Option ℕ)
    delete_domain domain = do
      before_state ← attempt (get_allowed_domain_snapshot e db domain)
      as_status 500 (delete_allowed_domain e db domain)
      recorded ← attempt (
          record_action e db allowed_domain delete domain none (flatten before_state) none
            (codes "Removed domain " ++ domain) none)
      pure (id_of recorded)

    unfoldable pub list_domains : M (List DomainInfo × ℕ)
    list_domains = do
      domains ← as_status 500 (list_allowed_domains e db)
      pure (domains, length domains)

  module _ (parse_uuid : Text → Option ℕ) (state : AppState) (request : Request) where
    unfoldable pub add_to_queue_handler : Text → ℕ → M Text
    add_to_queue_handler url priority = do
      db ← tenant_db parse_uuid e state request
      add_to_queue db url priority

    unfoldable pub add_domain_handler : Text → Option Text → M (Option ℕ)
    add_domain_handler domain notes = do
      db ← tenant_db parse_uuid e state request
      access ← tenant_access parse_uuid e state request
      add_domain db access domain notes

    unfoldable pub delete_domain_handler : Text → M (Option ℕ)
    delete_domain_handler domain = do
      db ← tenant_db parse_uuid e state request
      delete_domain db domain

    unfoldable pub list_domains_handler : M (List DomainInfo × ℕ)
    list_domains_handler = do db ← tenant_db parse_uuid e state request; list_domains db
