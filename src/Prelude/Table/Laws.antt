-- ===== src/Prelude/Table/Laws.antt =====
-- What a query finds after a statement.
use mathlib.Core.Option
use lala_search.Prelude.{
  ◌≡◌, refl, Bool, true, false, none, some, List, [], ◌∷◌, ◌++◌, arith, if◌then◌else◌, inl, inr,
  Bool-cases,
}
use lala_search.Prelude.Table.{select_one, exists_row, update_rows, delete_rows}

module _ {ℓ} {R : Type ℓ} (p : R → Bool) where
  -- A row that is found is found still when rows are added behind it.
  pub select_one-append :
      (rows more : List R) {r : R}
      → select_one p rows ≡ some r
      → select_one p (rows ++ more) ≡ some r
  unfolding select_one
  select_one-append [] more h = cc
  select_one-append (s ∷ rows) more {r} h = ground (arith, select_one-append rows more {r = r})

  -- An update that moves no row in or out of the query's reach.
  pub select_one-update_rows :
      (q : R → Bool) (f : R → R)
      → ((r : R) → q r ≡ true → p (f r) ≡ p r)
      → (rows : List R)
      → select_one p (update_rows q f rows)
        ≡ Option.map (λ r. if q r then f r else r) (select_one p rows)
  unfolding select_one update_rows
  select_one-update_rows q f stays [] = refl
  select_one-update_rows q f stays (r ∷ rows) = elim (Bool-cases (q r)) [
    | inl met ↦ ground (arith, met, stays r met, select_one-update_rows q f stays rows)
    | inr unmet ↦ ground (arith, unmet, select_one-update_rows q f stays rows)
  ]

  pub select_one_sound : (rows : List R) {r : R} → select_one p rows ≡ some r → p r ≡ true
  unfolding select_one
  select_one_sound [] h = cc
  select_one_sound (s ∷ rows) {r} h = ground (arith, select_one_sound rows {r = r})

  pub select_one-delete_rows : (rows : List R) → select_one p (delete_rows p rows) ≡ none
  unfolding select_one delete_rows
  select_one-delete_rows [] = refl
  select_one-delete_rows (r ∷ rows) = ground (arith, select_one-delete_rows rows)

  -- A row that is added behind rows that the query does not find.
  pub select_one-added :
      (rows : List R) (r : R)
      → exists_row p rows ≡ false
      → p r ≡ true
      → select_one p (rows ++ r ∷ []) ≡ some r
  unfolding select_one exists_row
  select_one-added [] r absent h = rw h refl
  select_one-added (s ∷ rows) r absent h = ground (arith, absent, h, select_one-added rows r)

  -- A statement that deletes no row within the query's reach.
  pub select_one-delete_other :
      (q : R → Bool)
      → ((r : R) → q r ≡ true → p r ≡ false)
      → (rows : List R) → select_one p (delete_rows q rows) ≡ select_one p rows
  unfolding select_one delete_rows
  select_one-delete_other q apart [] = refl
  select_one-delete_other q apart (r ∷ rows) =
      ground (arith, apart r, select_one-delete_other q apart rows)
