-- ===== src/Crawl/Discovered.antt =====
-- Which links of a page come into the queue: what there is to say of one that does.
use lala_search.Prelude.{
  ℕ, ◌≡◌, refl, ap, ◌∙◌, subst, ◌⊎◌, inl, inr, Bool, true, false, Option, none, some, List, [], ◌∷◌,
  ◌++◌, Bool-cases, then_some,
}
use lala_search.Prelude.Text.{Text}
use lala_search.Prelude.Integers.{ℤ, leb_ℤ, parse_i64}
use lala_search.Prelude.Table.{select_one, exists_row}
use lala_search.Models.Crawl.{CrawlQueueEntry}
use lala_search.World.{Database, World, Env, ok, raise}
use lala_search.World.Keeps.{Keeps, keeps_rules}
use lala_search.World.Success.{bind-eq-ok, fetch-eq-ok, or_raise-eq-ok, write_if-db, db-tick}
use lala_search.Crawl.Queue.{
  DbClient, is_setting, setting_value, has_url, get_setting, insert_queue_entry,
}
use lala_search.Crawl.Process.{Url, extract_domain}
use lala_search.Crawl.Web.{Web}
use lala_search.Crawl.Links.{discovered_entry}
use lala_search.Site.Pages.{is_page}
use lala_search.Site.Allowed.{allowed_in}
use lala_search.Site.Capacity.{
  index_capacity_setting_key, usage_of, configured_capacity, capacity_of, get_index_usage_bytes,
  get_index_capacity_bytes,
}

-- The capacity that a stored setting stands for, or, where there is none, the environment
abbrev pub read_capacity : Option Text → Option Text → Option ℤ
read_capacity none none = none
read_capacity none (some value) = parse_i64 value
read_capacity (some value) configured = parse_i64 value

abbrev pub capacity_in : DbClient → Database → Option ℤ
capacity_in client d =
    read_capacity
      (setting_value
        (select_one (is_setting client.tenant_id index_capacity_setting_key) d.settings))
      client.tenant_index_capacity_bytes

-- The tenant's usage and capacity can be read, and the usage is below the capacity.
pub record HasRoom (client : DbClient) (d : Database) : Type 0 where
  pub max_bytes : ℤ
  pub readable : capacity_in client d ≡ some max_bytes
  pub below : leb_ℤ max_bytes (usage_of client.tenant_id d.site.crawled_pages) ≡ false

-- The database with more in its queue
abbrev pub with_queued : List CrawlQueueEntry → Database → Database
with_queued added d = record d { crawl_queue = d.crawl_queue ++ added }

then_some-eq-some : {A : Type 0} → (b : Bool) (a : A) {c : A} → then_some b a ≡ some c → c ≡ a
then_some-eq-some true a h = cc
then_some-eq-some false a h = cc

module _ (e : Env) (client : DbClient) where
  configured_capacity-eq-ok :
      (value : Option Text) (w : World) {n : ℤ} {w' : World}
      → configured_capacity e client value w ≡ (ok n, w')
      → (read_capacity none value ≡ some n) × (w' ≡ w)
  unfolding configured_capacity raise
  configured_capacity-eq-ok none w h = cc
  configured_capacity-eq-ok (some value) w h = or_raise-eq-ok _ _ w h

  capacity_of-eq-ok :
      (value : Option Text) (w : World) {n : ℤ} {w' : World}
      → capacity_of e client value w ≡ (ok n, w')
      → (read_capacity value client.tenant_index_capacity_bytes ≡ some n) × (w' ≡ w)
  unfolding capacity_of
  capacity_of-eq-ok none w h = configured_capacity-eq-ok client.tenant_index_capacity_bytes w h
  capacity_of-eq-ok (some value) w h = or_raise-eq-ok _ _ w h

  pub get_index_usage_bytes-eq-ok :
      (w : World) {n : ℤ} {w' : World}
      → get_index_usage_bytes e client w ≡ (ok n, w')
      → (n ≡ usage_of client.tenant_id w.site.crawled_pages) × (w'.db ≡ w.db)
  unfolding get_index_usage_bytes
  get_index_usage_bytes-eq-ok w {n} {w'} h =
      let (usage, w₁, read, rest) = bind-eq-ok _ _ w h in
      let (is_usage, at_w₁) = fetch-eq-ok e _ w read in
      let (given, at_w') = or_raise-eq-ok _ _ w₁ rest in
      let same : n ≡ usage = then_some-eq-some _ usage given in
      (same ∙ is_usage, ap (λ (v : World). v.db) (at_w' ∙ at_w₁) ∙ db-tick w)

  pub get_index_capacity_bytes-eq-ok :
      (w : World) {n : ℤ} {w' : World}
      → get_index_capacity_bytes e client w ≡ (ok n, w')
      → (capacity_in client w.db ≡ some n) × (w'.db ≡ w.db)
  unfolding get_index_capacity_bytes get_setting
  get_index_capacity_bytes-eq-ok w {n} {w'} h =
      let (value, w₁, read, rest) = bind-eq-ok _ _ w h in
      let (is_value, at_w₁) = fetch-eq-ok e _ w read in
      let (given, at_w') = capacity_of-eq-ok value w₁ rest in
      (
        subst (λ (o : Option Text). read_capacity o client.tenant_index_capacity_bytes ≡ some n)
            is_value given,
        ap (λ (v : World). v.db) (at_w' ∙ at_w₁) ∙ db-tick w,
      )

module _ (web : Web) (e : Env) (client : DbClient) (d : Database) where
  -- The entry that a link of a page gives: the link's domain is allowed, its page is not there yet,
  -- and the tenant's index has room for more.
  pub record IsDiscovered (parent : CrawlQueueEntry) (r : CrawlQueueEntry) : Type 0 where
    pub url : Url
    pub queue_id : ℕ
    pub time : ℕ
    pub parsed : web.parse_url r.url ≡ some url
    pub entry : r ≡ discovered_entry web e client r.url (extract_domain url) parent queue_id time
    pub allowed : allowed_in d client.tenant_id (extract_domain url) ≡ true
    pub new :
        exists_row (is_page client.tenant_id (extract_domain url) url.path) d.site.crawled_pages
        ≡ false
    pub room : HasRoom client d

  -- Where the work on one link of `parent` ends: nothing changed, or the entry was added.
  abbrev pub Enqueued : CrawlQueueEntry → Text → World → Type 0
  Enqueued parent link w =
      (w.db ≡ d)
      ⊎ ((r : CrawlQueueEntry) × (r.url ≡ link)
          × IsDiscovered parent r
          × (w.db ≡ with_queued (r ∷ []) d))

module _ (e : Env) (client : DbClient) where
  pub usage-reads : (d : Database) → Keeps (λ c. c ≡ d) (get_index_usage_bytes e client)
  unfolding get_index_usage_bytes
  usage-reads d = search (keeps_rules) depth 9

  configured_capacity-reads :
      (d : Database) (value : Option Text) → Keeps (λ c. c ≡ d) (configured_capacity e client value)
  unfolding configured_capacity
  configured_capacity-reads d none = search keeps_rules
  configured_capacity-reads d (some value) = search keeps_rules

  capacity_of-reads :
      (d : Database) (value : Option Text) → Keeps (λ c. c ≡ d) (capacity_of e client value)
  unfolding capacity_of
  capacity_of-reads d none = configured_capacity-reads d client.tenant_index_capacity_bytes
  capacity_of-reads d (some value) = search keeps_rules

  pub capacity-reads : (d : Database) → Keeps (λ c. c ≡ d) (get_index_capacity_bytes e client)
  unfolding get_index_capacity_bytes get_setting
  capacity-reads d = search (keeps_rules, capacity_of-reads d) depth 9

  pub insert_queue_entry-db :
      (entry : CrawlQueueEntry) (w : World)
      → ((insert_queue_entry e entry w).1.db ≡ w.db)
        ⊎ ((insert_queue_entry e entry w).1.db ≡ with_queued (entry ∷ []) w.db)
  unfolding insert_queue_entry
  insert_queue_entry-db entry w = elim (write_if-db e _ _ w) [
    | inl same ↦ inl same
    | inr written ↦
        elim (Bool-cases (exists_row (has_url entry.tenant_id entry.url) w.crawl_queue)) [
          | inl there ↦ inl (written ∙ (rw there refl))
          | inr absent ↦ inr (written ∙ (rw absent refl))
        ]
  ]
