-- ===== src/Site/PageKeys.antt =====
-- The pages by their keys: what a lookup finds after an upsert.
use lala_search.Prelude.{
  ℕ, ◌≡◌, refl, ap, Bool, true, false, ◌&&◌, Option, none, some, List, [], ◌∷◌, ◌==◌, ==_iff, arith,
  if◌then◌else◌, Bool-cases, inl, inr,
}
use mathlib.Core.Option
use lala_search.Prelude.Text.{Text, text_eq, text_eq_iff}
use lala_search.Prelude.Table.{select_one, upsert_row}
use lala_search.Models.Pages.{CompressionType, CrawledPage, PageRow, from_db_value-to_db_value}
use lala_search.World.{Database, World, Env, ok, fetch}
use lala_search.World.Success.{write_if-eq-ok}
use lala_search.Crawl.Queue.{DbClient}
use lala_search.Site.Pages.{
  is_page, to_page_row, to_page, update_page, upsert_crawled_page, get_crawled_page,
}

-- The key of a page
abbrev pub same_key : CrawledPage → ℕ → Text → Text → Bool
same_key page tenant_id domain url_path =
    (page.tenant_id == tenant_id) && text_eq page.domain domain && text_eq page.url_path url_path

-- A page that is stored for the first time, or in place of an earlier one, of which the identity,
-- the URL and the time of creation stay.
abbrev pub in_place_of : Option CrawledPage → CrawledPage → CrawledPage
in_place_of none page = page
in_place_of (some old) page = record page {
  page_id = old.page_id;
  url = old.url;
  created_at = old.created_at;
}

abbrev pub page_at : ℕ → Text → Text → Database → Option CrawledPage
page_at tenant_id domain url_path d =
    Option.map to_page (select_one (is_page tenant_id domain url_path) d.site.crawled_pages)

&&-eq-true_each : (a b c : Bool) → (a && b && c) ≡ true → (a ≡ true) × (b ≡ true) × (c ≡ true)
&&-eq-true_each a b c h = (ground (arith, h), ground (arith, h), ground (arith, h))

to_page-to_page_row : (page : CrawledPage) → to_page (to_page_row page) ≡ page
to_page-to_page_row page =
    ap (λ (t : CompressionType). record page { storage_compression = t })
      (from_db_value-to_db_value page.storage_compression)

to_page-update_page :
    (page : CrawledPage) (r : PageRow)
    → is_page page.tenant_id page.domain page.url_path r ≡ true
    → to_page (update_page page r) ≡ in_place_of (some (to_page r)) page
to_page-update_page page r here =
    let (t, d, x) =
      &&-eq-true_each (r.tenant_id == page.tenant_id) (text_eq r.domain page.domain) _ here in
    let tenant = (==_iff r.tenant_id page.tenant_id).0 t in
    let domain = (text_eq_iff r.domain page.domain).0 d in
    let path = (text_eq_iff r.url_path page.url_path).0 x in
    λ i. record page {
      page_id = r.page_id;
      tenant_id = tenant i;
      domain = domain i;
      url_path = path i;
      url = r.url;
      created_at = r.created_at;
      storage_compression = from_db_value-to_db_value page.storage_compression i;
    }

module _ (page : CrawledPage) (u : ℕ) (y z : Text) where
  -- A row of the page's key is found under another key exactly if that is the page's too.
  is_page-of_match :
      (r : PageRow)
      → is_page page.tenant_id page.domain page.url_path r ≡ true
      → is_page u y z r ≡ same_key page u y z
  is_page-of_match r here =
      let (t, d, x) =
        &&-eq-true_each (r.tenant_id == page.tenant_id) (text_eq r.domain page.domain) _ here in
      rw
        (
          (==_iff r.tenant_id page.tenant_id).0 t,
          (text_eq_iff r.domain page.domain).0 d,
          (text_eq_iff r.url_path page.url_path).0 x,
        )
        refl

  is_page-of_key :
      (r : PageRow)
      → same_key page u y z ≡ true
      → is_page u y z r ≡ is_page page.tenant_id page.domain page.url_path r
  is_page-of_key r same =
      let (t, d, x) = &&-eq-true_each (page.tenant_id == u) (text_eq page.domain y) _ same in
      rw
        (
          (==_iff page.tenant_id u).0 t,
          (text_eq_iff page.domain y).0 d,
          (text_eq_iff page.url_path z).0 x,
        )
        refl

  -- What a lookup finds in the rows after an upsert, if the key is the page's and if it is another.
  abbrev FindsAfter : Bool → List PageRow → Type 0
  FindsAfter same rows =
      Option.map to_page (
        select_one (is_page u y z) (
          upsert_row (is_page page.tenant_id page.domain page.url_path) (update_page page)
            (to_page_row page) rows))
      ≡ (if same
          then some (in_place_of (Option.map to_page (select_one (is_page u y z) rows)) page)
          else Option.map to_page (select_one (is_page u y z) rows))

  FindsAfter-here :
      (r : PageRow) (rows : List PageRow) (same : Bool)
      → same_key page u y z ≡ same
      → is_page page.tenant_id page.domain page.url_path r ≡ true
      → FindsAfter same (r ∷ rows)
  unfolding select_one upsert_row
  FindsAfter-here r rows true k here =
      rw (here, is_page-of_match r here, k) (ap some (to_page-update_page page r here))
  FindsAfter-here r rows false k here = rw (here, is_page-of_match r here, k) refl

  FindsAfter-elsewhere :
      (r : PageRow) (rows : List PageRow) (same : Bool)
      → same_key page u y z ≡ same
      → is_page page.tenant_id page.domain page.url_path r ≡ false
      → FindsAfter same rows
      → FindsAfter same (r ∷ rows)
  unfolding select_one upsert_row
  FindsAfter-elsewhere r rows true k elsewhere rest =
      rw (elsewhere, is_page-of_key r k, elsewhere) rest
  FindsAfter-elsewhere r rows false k elsewhere rest = elim (Bool-cases (is_page u y z r)) [
    | inl found ↦ rw (elsewhere, found) refl
    | inr other ↦ rw (elsewhere, other) rest
  ]

  FindsAfter_lem :
      (rows : List PageRow) (same : Bool) → same_key page u y z ≡ same → FindsAfter same rows
  unfolding select_one upsert_row
  FindsAfter_lem [] true k = rw k (ap some (to_page-to_page_row page))
  FindsAfter_lem [] false k = rw k refl
  FindsAfter_lem (r ∷ rows) same k =
      elim (Bool-cases (is_page page.tenant_id page.domain page.url_path r)) [
        | inl here ↦ FindsAfter-here r rows same k here
        | inr elsewhere ↦ FindsAfter-elsewhere r rows same k elsewhere (FindsAfter_lem rows same k)
      ]

module _ (e : Env) where
  -- After an upsert of a page that succeeded, and while the database answers, the page's key finds
  -- the page, with the identity, the URL and the time of creation of the page that was there before,
  -- if there was one; every other key of any tenant finds what it found before.
  pub upsert_crawled_page-get_crawled_page :
      (page : CrawledPage) (client : DbClient) (domain url_path : Text) (w w' : World)
      → upsert_crawled_page e page w ≡ (ok tt, w')
      → e.query_fails w'.steps ≡ false
      → (get_crawled_page e client domain url_path w').0
        ≡ ok (
            if same_key page client.tenant_id domain url_path
            then some (in_place_of (page_at client.tenant_id domain url_path w.db) page)
            else page_at client.tenant_id domain url_path w.db)
  unfolding upsert_crawled_page get_crawled_page fetch
  upsert_crawled_page-get_crawled_page page client domain url_path w w' done answers =
      let (_, written) = write_if-eq-ok e _ _ w done in
      rw (answers, written)
        (ap ok (
          FindsAfter_lem page client.tenant_id domain url_path w.db.site.crawled_pages
            (same_key page client.tenant_id domain url_path) refl))
