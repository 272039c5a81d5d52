-- ===== src/World/Index.antt =====
-- Actions that give the search server nothing: one rule for each way to build an action.
use lala_search.Prelude.{
  ℕ, ◌≡◌, refl, ◌∙◌, Bool, true, false, Option, none, some, if◌then◌else◌, arith,
}
use lala_search.World.{
  Failure, Result, ok, err, Database, World, Env, M, pure, raise, or_raise, continue, ignore,
  attempt, map_failure, call_out, ◌>>=◌, now, draw_uuid, fetch, write, write_if,
}

pub record KeepsIndex {A : Type 0} (m : M A) : Type 0 where
  pub through : (w : World) → (m w).1.indexed ≡ w.indexed

module _ {A : Type 0} where
  pub KeepsIndex-pure : (a : A) → KeepsIndex (pure a)
  unfolding pure
  KeepsIndex-pure a = record { through = λ w. refl }

  pub KeepsIndex-raise : (x : Failure) → KeepsIndex (raise {A = A} x)
  unfolding raise
  KeepsIndex-raise x = record { through = λ w. refl }

  pub KeepsIndex-or_raise : (x : Failure) (o : Option A) → KeepsIndex (or_raise x o)
  unfolding or_raise
  KeepsIndex-or_raise x none = record { through = λ w. refl }
  KeepsIndex-or_raise x (some a) = record { through = λ w. refl }

  pub KeepsIndex-ignore : (m : M A) → KeepsIndex m → KeepsIndex (ignore m)
  unfolding ignore
  KeepsIndex-ignore m k = record { through = k.through }

  pub KeepsIndex-attempt : (m : M A) → KeepsIndex m → KeepsIndex (attempt m)
  unfolding attempt
  KeepsIndex-attempt m k = record { through = k.through }

  pub KeepsIndex-map_failure :
      (f : Failure → Failure) (m : M A) → KeepsIndex m → KeepsIndex (map_failure f m)
  unfolding map_failure
  KeepsIndex-map_failure f m k = record { through = k.through }

  pub KeepsIndex-call_out : (f : ℕ → Result A) → KeepsIndex (call_out f)
  unfolding call_out
  KeepsIndex-call_out f = record { through = λ w. refl }

  pub KeepsIndex-if :
      (test : Bool) (yes_branch no_branch : M A)
      → (test ≡ true → KeepsIndex yes_branch)
      → (test ≡ false → KeepsIndex no_branch)
      → KeepsIndex (if test then yes_branch else no_branch)
  KeepsIndex-if true yes_branch no_branch k _ = k refl
  KeepsIndex-if false yes_branch no_branch _ k = k refl

module _ {A B : Type 0} (next : A → M B) where
  KeepsIndex-continue :
      ((a : A) → KeepsIndex (next a)) → (r : Result A) → KeepsIndex (continue r next)
  unfolding continue raise
  KeepsIndex-continue k (err x) = KeepsIndex-raise x
  KeepsIndex-continue k (ok a) = k a

  pub KeepsIndex-bind :
      (first : M A)
      → KeepsIndex first
      → ((a : A) → KeepsIndex (next a))
      → KeepsIndex (first >>= next)
  unfolding ◌>>=◌
  KeepsIndex-bind first k ks = record {
    through = λ w. (KeepsIndex-continue ks (first w).0).through (first w).1 ∙ k.through w;
  }

  -- What follows may use that the value is there.
  pub KeepsIndex-or_raise_bind :
      (x : Failure) (o : Option A)
      → ((a : A) → o ≡ some a → KeepsIndex (next a))
      → KeepsIndex (or_raise x o >>= next)
  unfolding ◌>>=◌ or_raise continue
  KeepsIndex-or_raise_bind x none ks = record { through = λ w. refl }
  KeepsIndex-or_raise_bind x (some a) ks = record { through = (ks a refl).through }

module _ (e : Env) where
  pub KeepsIndex-now : KeepsIndex (now e)
  unfolding now
  KeepsIndex-now = record { through = λ w. refl }

  pub KeepsIndex-draw_uuid : KeepsIndex (draw_uuid e)
  unfolding draw_uuid
  KeepsIndex-draw_uuid = record { through = λ w. refl }

  pub KeepsIndex-fetch : {A : Type 0} (f : Database → A) → KeepsIndex (fetch e f)
  unfolding fetch
  KeepsIndex-fetch f = record { through = λ w. ground arith }

  pub KeepsIndex-write : (f : ℕ → Database → Database) → KeepsIndex (write e f)
  unfolding write
  KeepsIndex-write f = record { through = λ w. ground arith }

  pub KeepsIndex-write_if :
      (allowed : Database → Bool) (f : ℕ → Database → Database) → KeepsIndex (write_if e allowed f)
  unfolding write_if
  KeepsIndex-write_if allowed f = record { through = λ w. ground arith }

pub ruleset index_rules = (
  KeepsIndex-pure, KeepsIndex-raise, KeepsIndex-or_raise, KeepsIndex-ignore, KeepsIndex-attempt,
  KeepsIndex-map_failure, KeepsIndex-call_out, KeepsIndex-if, KeepsIndex-bind, KeepsIndex-now,
  KeepsIndex-draw_uuid, KeepsIndex-fetch, KeepsIndex-write, KeepsIndex-write_if,
)
