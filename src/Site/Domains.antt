-- ===== src/Site/Domains.antt =====
-- lala-agent/src/services/db.rs: the domains that a tenant may crawl. A removed domain stays in the
-- table, marked with the time of its removal.
use lala_search.Prelude.{ℕ, Bool, ◌&&◌, Option, none, some, List, [], ◌∷◌, map, ◌==◌, is_none}
use mathlib.Core.Option
use lala_search.Prelude.Text.{Text, codes, text_eq}
use lala_search.Prelude.Table.{
  select_one, select_all, exists_row, update_rows, upsert_row, delete_rows,
}
use lala_search.Models.History.{Snapshot}
use lala_search.Models.Rows.{AllowedDomainRow}
use lala_search.World.{Database, Env, M, fetch, write, write_if}
use lala_search.AuthDb.Users.{tenant_exists}
use lala_search.Crawl.Queue.{DbClient}

abbrev pub is_domain : ℕ → Text → AllowedDomainRow → Bool
is_domain tenant_id domain r = (r.tenant_id == tenant_id) && text_eq r.domain domain

abbrev pub is_active_domain : ℕ → Text → AllowedDomainRow → Bool
is_active_domain tenant_id domain r = is_domain tenant_id domain r && is_none r.deleted_at

abbrev pub set_allowed_domains :
    (List AllowedDomainRow → List AllowedDomainRow) → Database → Database
set_allowed_domains f d = record d {
  site = record (d.site) { allowed_domains = f d.site.allowed_domains };
}

-- What `list_allowed_domains` reads of a row; the text that a time is printed as is left aside.
pub record DomainInfo : Type 0 where
  pub domain : Text
  pub added_by : Option Text
  pub notes : Option Text
  pub added_at : ℕ

abbrev pub to_domain_info : AllowedDomainRow → DomainInfo
to_domain_info r = record {
  domain = r.domain;
  added_by = r.added_by;
  notes = r.notes;
  added_at = r.added_at;
}

abbrev pub domain_snapshot : Text → Option Text → Option Text → Snapshot
domain_snapshot domain added_by notes =
    (codes "domain", some domain) ∷ (codes "added_by", added_by) ∷ (codes "notes", notes) ∷ []

abbrev pub new_domain : ℕ → Text → Text → Option Text → ℕ → AllowedDomainRow
new_domain tenant_id domain added_by notes t = record {
  tenant_id = tenant_id;
  domain = domain;
  added_by = some added_by;
  notes = notes;
  added_at = t;
  deleted_at = none;
}

-- DO UPDATE SET: a removed domain is allowed again.
abbrev pub renew_domain : Text → Option Text → ℕ → AllowedDomainRow → AllowedDomainRow
renew_domain added_by notes t r = record r {
  deleted_at = none;
  added_by = some added_by;
  notes = notes;
  added_at = t;
}

module _ (e : Env) (client : DbClient) where
  unfoldable pub insert_allowed_domain : Text → Text → Option Text → M (Unit {0})
  insert_allowed_domain domain added_by notes =
      write_if e (λ d. tenant_exists client.tenant_id d)
        (λ t. set_allowed_domains (
          upsert_row (is_domain client.tenant_id domain) (renew_domain added_by notes t)
            (new_domain client.tenant_id domain added_by notes t)))

  unfoldable pub delete_allowed_domain : Text → M (Unit {0})
  delete_allowed_domain domain = write e (λ t.
      set_allowed_domains
        (update_rows (is_domain client.tenant_id domain) (λ r. record r { deleted_at = some t })))

  unfoldable pub hard_delete_allowed_domain : Text → M (Unit {0})
  hard_delete_allowed_domain domain =
      write e (λ t. set_allowed_domains (delete_rows (is_domain client.tenant_id domain)))

  unfoldable pub list_allowed_domains : M (List DomainInfo)
  list_allowed_domains = fetch e (λ d. map to_domain_info (
      select_all (λ r. (r.tenant_id == client.tenant_id) && is_none r.deleted_at)
        d.site.allowed_domains))

  unfoldable pub is_domain_allowed : Text → M Bool
  is_domain_allowed domain =
      fetch e (λ d. exists_row (is_active_domain client.tenant_id domain) d.site.allowed_domains)

  unfoldable pub get_allowed_domain_snapshot : Text → M (Option Snapshot)
  get_allowed_domain_snapshot domain = fetch e (λ d.
      Option.map (λ (r : AllowedDomainRow). domain_snapshot r.domain r.added_by r.notes)
        (select_one (is_active_domain client.tenant_id domain) d.site.allowed_domains))
