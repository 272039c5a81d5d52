-- ===== src/Site/Allowed.antt =====
-- The domains that are allowed, as a set for each tenant.
use lala_search.Prelude.{
  ℕ, ◌≡◌, refl, ap, ◌∙◌, Bool, true, false, ◌&&◌, Option, some, List, [], ◌∷◌, ◌==◌, arith,
  if◌then◌else◌,
}
use mathlib.Core.Path.{fun_ext}
use lala_search.Prelude.Text.{Text, text_eq, text_eq_iff}
use lala_search.Prelude.Table.{exists_row, update_rows, upsert_row}
use lala_search.Models.Rows.{AllowedDomainRow}
use lala_search.World.{Database, World, Env, M, ok, pure, fetch, ◌>>◌}
use lala_search.World.Success.{write-eq-ok, write_if-eq-ok, bind-eq-ok, pure-eq-ok}
use lala_search.Crawl.Queue.{DbClient}
use lala_search.Site.Domains.{
  is_domain, is_active_domain, new_domain, renew_domain, insert_allowed_domain,
  delete_allowed_domain, is_domain_allowed,
}

abbrev pub same_domain : ℕ → Text → ℕ → Text → Bool
same_domain t x u y = (t == u) && text_eq x y

module _ (t u : ℕ) (x y : Text) (f : AllowedDomainRow → AllowedDomainRow) where
  exists_row-upsert_row :
      (new : AllowedDomainRow)
      → is_active_domain u y new ≡ same_domain t x u y
      → ((r : AllowedDomainRow)
          → is_domain t x r ≡ true
          → is_active_domain u y (f r) ≡ same_domain t x u y)
      → (rows : List AllowedDomainRow)
      → exists_row (is_active_domain u y) (upsert_row (is_domain t x) f new rows)
        ≡ (if same_domain t x u y then true else exists_row (is_active_domain u y) rows)
  unfolding exists_row upsert_row
  exists_row-upsert_row new added set [] = ground (arith, added)
  exists_row-upsert_row new added set (r ∷ rows) = ground (
    arith,
    set r,
    text_eq_iff r.domain x,
    text_eq_iff r.domain y,
    text_eq_iff x y,
    exists_row-upsert_row new added set rows,
  )

  exists_row-update_rows :
      ((r : AllowedDomainRow) → is_active_domain u y (f r) ≡ false)
      → (rows : List AllowedDomainRow)
      → exists_row (is_active_domain u y) (update_rows (is_domain t x) f rows)
        ≡ (if same_domain t x u y then false else exists_row (is_active_domain u y) rows)
  unfolding exists_row update_rows
  exists_row-update_rows set [] = ground arith
  exists_row-update_rows set (r ∷ rows) = ground (
    arith,
    set r,
    text_eq_iff r.domain x,
    text_eq_iff r.domain y,
    text_eq_iff x y,
    exists_row-update_rows set rows,
  )

-- A call that changes what is allowed
pub data DomainCall : Type 0 where
  insert_call : DbClient → Text → Text → Option Text → DomainCall
  delete_call : DbClient → Text → DomainCall

-- For each tenant the set of its allowed domains, as a test
abbrev pub Allowed : Type 0
Allowed = ℕ → Text → Bool

-- The specification of a call: the domain is added to its tenant's set, or taken from it.
unfoldable pub after_call : DomainCall → Allowed → Allowed
after_call (insert_call client domain added_by notes) allowed u y =
    if same_domain client.tenant_id domain u y then true else allowed u y
after_call (delete_call client domain) allowed u y =
    if same_domain client.tenant_id domain u y then false else allowed u y

unfoldable pub after_calls : List DomainCall → Allowed → Allowed
unfolding after_call
after_calls [] allowed = allowed
after_calls (call ∷ calls) allowed = after_calls calls (after_call call allowed)

-- The set that the table holds
unfoldable pub allowed_in : Database → Allowed
allowed_in d u y = exists_row (is_active_domain u y) d.site.allowed_domains

module _ (e : Env) where
  unfoldable pub run_call : DomainCall → M (Unit {0})
  run_call (insert_call client domain added_by notes) =
      insert_allowed_domain e client domain added_by notes
  run_call (delete_call client domain) = delete_allowed_domain e client domain

  unfoldable pub run_calls : List DomainCall → M (Unit {0})
  unfolding run_call
  run_calls [] = pure tt
  run_calls (call ∷ calls) = run_call call >> run_calls calls

  pub run_call-allowed :
      (call : DomainCall) (w : World) {w' : World}
      → run_call call w ≡ (ok tt, w')
      → (u : ℕ) (y : Text) → allowed_in w'.db u y ≡ after_call call (allowed_in w.db) u y
  unfolding run_call after_call allowed_in insert_allowed_domain delete_allowed_domain
  run_call-allowed (insert_call client domain added_by notes) w h u y =
      let (_, written) = write_if-eq-ok e _ _ w h in
      rw
        (
          written,
          exists_row-upsert_row client.tenant_id u domain y
              (renew_domain added_by notes (e.clock w.steps))
              (new_domain client.tenant_id domain added_by notes (e.clock w.steps)) (ground arith)
              (λ r here. ground (arith, text_eq_iff r.domain domain, here))
              w.db.site.allowed_domains,
        )
        refl
  run_call-allowed (delete_call client domain) w h u y =
      rw
        (
          write-eq-ok e _ w h,
          exists_row-update_rows client.tenant_id u domain y
              (λ r. record r { deleted_at = some (e.clock w.steps) }) (λ r. ground arith)
              w.db.site.allowed_domains,
        )
        refl

  after_calls-cong :
      (calls : List DomainCall) (a b : Allowed)
      → ((u : ℕ) (y : Text) → a u y ≡ b u y)
      → (u : ℕ) (y : Text) → after_calls calls a u y ≡ after_calls calls b u y
  unfolding after_calls
  after_calls-cong calls a b same u y =
      ap (λ (f : Allowed). after_calls calls f u y) (fun_ext (λ t. fun_ext (same t)))

  pub run_calls-allowed :
      (calls : List DomainCall) (w : World) {w' : World}
      → run_calls calls w ≡ (ok tt, w')
      → (u : ℕ) (y : Text) → allowed_in w'.db u y ≡ after_calls calls (allowed_in w.db) u y
  unfolding run_calls after_calls
  run_calls-allowed [] w h u y = rw (pure-eq-ok tt w h).1 refl
  run_calls-allowed (call ∷ calls) w h u y =
      let (_, w₁, done, rest) = bind-eq-ok (run_call call) _ w h in
      run_calls-allowed calls w₁ rest u y
      ∙ after_calls-cong calls _ _ (run_call-allowed call w done) u y

  -- After any insertions and removals of domains that succeeded, by any tenants' clients, and while
  -- the database answers, `is_domain_allowed` says of a client's tenant and domain what the sets
  -- that the calls describe say.
  pub run_calls-is_domain_allowed :
      (calls : List DomainCall) (client : DbClient) (domain : Text) (w w' : World)
      → run_calls calls w ≡ (ok tt, w')
      → e.query_fails w'.steps ≡ false
      → (is_domain_allowed e client domain w').0
        ≡ ok (after_calls calls (allowed_in w.db) client.tenant_id domain)
  unfolding is_domain_allowed fetch
  run_calls-is_domain_allowed calls client domain w w' done answers =
      rw answers
        (unfold allowed_in in ap ok (run_calls-allowed calls w done client.tenant_id domain))
