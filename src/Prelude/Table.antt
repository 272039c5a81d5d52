-- ===== src/Prelude/Table.antt =====
-- A table of the database as the list of its rows, and what the program's SQL does with one.
pub mod Laws
use Prim.Native.Nat.{ℕ, zero, suc}
use mathlib.Core.Path.{◌≡◌, refl}
use mathlib.Core.Bool.{Bool, true, false, ◌||◌}
use mathlib.Core.Option.{Option, none, some}
use mathlib.Core.Option
use mathlib.Core.List.{List, [], ◌∷◌, ◌++◌}
use native.Mathlib.Omega.{arith}
use lala_search.Prelude.Tests.{if◌then◌else◌}
use lala_search.Prelude.Lists.{All}

module _ {ℓ} {R : Type ℓ} (p : R → Bool) where
  -- SELECT … WHERE p, of which the first row is taken
  unfoldable pub select_one : List R → Option R
  select_one [] = none
  select_one (r ∷ rows) = if p r then some r else select_one rows

  -- SELECT … WHERE p
  unfoldable pub select_all : List R → List R
  select_all [] = []
  select_all (r ∷ rows) = let rest = select_all rows in if p r then r ∷ rest else rest

  -- SELECT EXISTS(SELECT 1 … WHERE p)
  unfoldable pub exists_row : List R → Bool
  exists_row [] = false
  exists_row (r ∷ rows) = p r || exists_row rows

  -- UPDATE … SET f WHERE p
  unfoldable pub update_rows : (R → R) → List R → List R
  update_rows f [] = []
  update_rows f (r ∷ rows) = (if p r then f r else r) ∷ update_rows f rows

  -- INSERT … ON CONFLICT DO UPDATE SET f, where `p` is the conflict
  unfoldable pub upsert_row : (R → R) → R → List R → List R
  upsert_row f new [] = new ∷ []
  upsert_row f new (r ∷ rows) =
      let rest = upsert_row f new rows in if p r then f r ∷ rows else r ∷ rest

  -- DELETE … WHERE p
  unfoldable pub delete_rows : List R → List R
  delete_rows [] = []
  delete_rows (r ∷ rows) = let rest = delete_rows rows in if p r then rest else r ∷ rest

module _ {ℓ} {R : Type ℓ} (before : R → R → Bool) where
  -- The first of two by ORDER BY; of rows that are equal in it, the first
  unfoldable pub first_of : R → Option R → R
  first_of r none = r
  first_of r (some s) = if before s r then s else r

  -- ORDER BY … LIMIT 1
  unfoldable pub first_row : List R → Option R
  unfolding first_of
  first_row [] = none
  first_row (r ∷ rows) = some (first_of r (first_row rows))

  unfoldable pub insert_row : R → List R → List R
  insert_row r [] = r ∷ []
  insert_row r (s ∷ rows) =
      let rest = insert_row r rows in if before s r then s ∷ rest else r ∷ s ∷ rows

  -- ORDER BY …
  unfoldable pub order_rows : List R → List R
  unfolding insert_row
  order_rows [] = []
  order_rows (r ∷ rows) = insert_row r (order_rows rows)

module _ {ℓ} {R : Type ℓ} where
  -- LIMIT n
  unfoldable pub limit_rows : ℕ → List R → List R
  limit_rows zero rows = []
  limit_rows (suc n) [] = []
  limit_rows (suc n) (r ∷ rows) = r ∷ limit_rows n rows

  -- OFFSET n
  unfoldable pub skip_rows : ℕ → List R → List R
  skip_rows zero rows = rows
  skip_rows (suc n) [] = []
  skip_rows (suc n) (r ∷ rows) = skip_rows n rows
