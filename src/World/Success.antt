-- ===== src/World/Success.antt =====
-- What the success of an action says: one inversion for each way to build an action.
use lala_search.Prelude.{
  ℕ, ◌≡◌, refl, ap, Bool, true, false, Option, none, some, if◌then◌else◌, arith, ◌⊎◌, inl, inr,
  Bool-cases,
}
use lala_search.World.{
  Failure, Result, ok, err, Database, World, Env, M, tick, pure, raise, or_raise, continue, ◌>>=◌,
  caught, map_failure, as_status, now, fetch, write, write_if,
}

caught-eq-ok :
    {A : Type 0}
    → (f : Failure → Failure) (r : Result A) (w : World) {a : A} {w' : World}
    → ◌≡◌ {A = Result A × World} (caught f r, w) (ok a, w')
    → ◌≡◌ {A = Result A × World} (r, w) (ok a, w')
unfolding caught
caught-eq-ok f (ok b) w h = h
caught-eq-ok f (err x) w h = cc

module _ {A B : Type 0} where
  continue-eq-ok :
      (r : Result A) (f : A → M B) (w : World) {b : B} {w' : World}
      → continue r f w ≡ (ok b, w')
      → (a : A) × (r ≡ ok a) × (f a w ≡ (ok b, w'))
  unfolding continue
  continue-eq-ok (ok a) f w h = (a, refl, h)
  continue-eq-ok (err x) f w h = cc

  -- If a sequence succeeds, so does its first action, and the rest from there.
  pub bind-eq-ok :
      (m : M A) (f : A → M B) (w : World) {b : B} {w' : World}
      → (m >>= f) w ≡ (ok b, w')
      → (a : A) × (w₁ : World) × (m w ≡ (ok a, w₁)) × (f a w₁ ≡ (ok b, w'))
  unfolding ◌>>=◌
  bind-eq-ok m f w h =
      let (a, done, rest) = continue-eq-ok (m w).0 f (m w).1 h in
      (a, (m w).1, ap (λ r. (r, (m w).1)) done, rest)

  pub bind-of-ok :
      (m : M A) (f : A → M B) (w : World) {a : A} {w₁ : World}
      → m w ≡ (ok a, w₁)
      → (m >>= f) w ≡ f a w₁
  unfolding ◌>>=◌
  bind-of-ok m f w h = rw h

  continue-elim :
      (Q : World → Type 0) (m : M A) (f : A → M B) (w : World) (r : Result A) (w₁ : World)
      → m w ≡ (r, w₁)
      → ((x : Failure) (w₁ : World) → m w ≡ (err x, w₁) → Q w₁)
      → ((a : A) (w₁ : World) → m w ≡ (ok a, w₁) → Q (f a w₁).1)
      → Q (continue r f w₁).1
  unfolding continue
  continue-elim Q m f w (ok a) w₁ e failed done = done a w₁ e
  continue-elim Q m f w (err x) w₁ e failed done = failed x w₁ e

  -- A fact about where a sequence ends holds if it holds where its first action fails, and where the
  -- rest ends if the action returns.
  pub bind-elim :
      (Q : World → Type 0) (m : M A) (f : A → M B) (w : World)
      → ((x : Failure) (w₁ : World) → m w ≡ (err x, w₁) → Q w₁)
      → ((a : A) (w₁ : World) → m w ≡ (ok a, w₁) → Q (f a w₁).1)
      → Q ((m >>= f) w).1
  unfolding ◌>>=◌
  bind-elim Q m f w failed done = continue-elim Q m f w (m w).0 (m w).1 refl failed done

  continue-end : (r : Result A) (b : B) (w : World) → (continue r (λ (a : A). pure b) w).1 ≡ w
  unfolding continue pure
  continue-end (ok a) b w = refl
  continue-end (err x) b w = refl

  -- Where a sequence ends that only returns a value in the end.
  pub bind-end : (m : M A) (b : B) (w : World) → ((m >>= λ a. pure b) w).1 ≡ (m w).1
  unfolding ◌>>=◌
  bind-end m b w = continue-end (m w).0 b (m w).1

  -- What follows a value that is there.
  pub bind-of_some :
      (x : Failure) (o : Option A) (f : A → M B) (w : World) {a : A}
      → o ≡ some a
      → (or_raise x o >>= f) w ≡ f a w
  unfolding ◌>>=◌ or_raise continue
  bind-of_some x o f w h = rw h refl

module _ {A : Type 0} where
  pub map_failure-eq-ok :
      (f : Failure → Failure) (m : M A) (w : World) {a : A} {w' : World}
      → map_failure f m w ≡ (ok a, w')
      → m w ≡ (ok a, w')
  unfolding map_failure
  map_failure-eq-ok f m w h = caught-eq-ok f (m w).0 (m w).1 h

  pub as_status-eq-ok :
      (code : ℕ) (m : M A) (w : World) {a : A} {w' : World}
      → as_status code m w ≡ (ok a, w')
      → m w ≡ (ok a, w')
  unfolding as_status
  as_status-eq-ok code m w h = map_failure-eq-ok _ m w h

  pub pure-eq-ok :
      (a : A) (w : World) {b : A} {w' : World} → pure a w ≡ (ok b, w') → (b ≡ a) × (w' ≡ w)
  unfolding pure
  pure-eq-ok a w h = ground arith

  pub or_raise-eq-ok :
      (x : Failure) (o : Option A) (w : World) {a : A} {w' : World}
      → or_raise x o w ≡ (ok a, w')
      → (o ≡ some a) × (w' ≡ w)
  unfolding or_raise
  or_raise-eq-ok x none w h = cc
  or_raise-eq-ok x (some b) w h = ground arith

  pub if-raise-eq-ok :
      (b : Bool) (m : M A) (x : Failure) (w : World) {a : A} {w' : World}
      → (if b then m else raise x) w ≡ (ok a, w')
      → (b ≡ true) × (m w ≡ (ok a, w'))
  unfolding raise
  if-raise-eq-ok true m x w h = (refl, h)
  if-raise-eq-ok false m x w h = cc

  pub if_raise-eq-ok :
      (b : Bool) (m : M A) (x : Failure) (w : World) {a : A} {w' : World}
      → (if b then raise x else m) w ≡ (ok a, w')
      → (b ≡ false) × (m w ≡ (ok a, w'))
  unfolding raise
  if_raise-eq-ok false m x w h = (refl, h)
  if_raise-eq-ok true m x w h = cc

module _ (e : Env) where
  pub now-eq-ok :
      (w : World) {t : ℕ} {w' : World} → now e w ≡ (ok t, w') → (t ≡ e.clock w.steps) × (w' ≡ w)
  unfolding now
  now-eq-ok w h = ground arith

  pub fetch-eq-ok :
      {A : Type 0} (f : Database → A) (w : World) {a : A} {w' : World}
      → fetch e f w ≡ (ok a, w')
      → (a ≡ f w.db) × (w' ≡ tick w)
  unfolding fetch
  fetch-eq-ok f w h = ground arith

  pub write-eq-ok :
      (f : ℕ → Database → Database) (w : World) {u : Unit {0}} {w' : World}
      → write e f w ≡ (ok u, w')
      → w'.db ≡ f (e.clock w.steps) w.db
  unfolding write
  write-eq-ok f w h = ground arith

  pub write_if-eq-ok :
      (allowed : Database → Bool) (f : ℕ → Database → Database) (w : World) {u : Unit {0}}
      {w' : World}
      → write_if e allowed f w ≡ (ok u, w')
      → (allowed w.db ≡ true) × (w'.db ≡ f (e.clock w.steps) w.db)
  unfolding write_if
  write_if-eq-ok allowed f w h = ground arith

  -- Where a statement with a constraint ends: it did nothing, or it wrote.
  pub write_if-db :
      (allowed : Database → Bool) (f : ℕ → Database → Database) (w : World)
      → ((write_if e allowed f w).1.db ≡ w.db)
        ⊎ ((write_if e allowed f w).1.db ≡ f (e.clock w.steps) w.db)
  unfolding write_if tick
  write_if-db allowed f w = elim (Bool-cases (e.query_fails w.steps)) [
    | inl fails ↦ inl (rw fails refl)
    | inr answers ↦ elim (Bool-cases (allowed w.db)) [
      | inl may ↦ inr (rw (answers, may) refl)
      | inr may_not ↦ inl (rw (answers, may_not) refl)
    ]
  ]

pub db-tick : (w : World) → (tick w).db ≡ w.db
unfolding tick
db-tick w = refl
