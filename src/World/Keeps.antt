-- ===== src/World/Keeps.antt =====
-- Invariants of actions: one rule for each way to build an action.
use lala_search.Prelude.{
  ℕ, ◌≡◌, refl, subst, Bool, true, false, Option, none, some, if◌then◌else◌, arith, inl, inr,
  Bool-cases,
}
use lala_search.World.{
  Failure, Result, ok, err, Database, Mail, World, Env, M, pure, raise, or_raise, continue, ignore,
  attempt, map_failure, as_status, call_out, ◌>>=◌, now, draw_uuid, draw_token, fetch, write,
  write_if, send,
}

-- The action keeps `P` of the database, whether it returns or fails.
pub record Keeps {ℓ} {A : Type 0} (P : Database → Type ℓ) (m : M A) : Type ℓ where
  pub through : (w : World) → P w.db → P (m w).1.db

module _ {ℓ} {A : Type 0} {P : Database → Type ℓ} where
  pub Keeps-pure : (a : A) → Keeps P (pure a)
  unfolding pure
  Keeps-pure a = record { through = λ w h. h }

  pub Keeps-raise : (x : Failure) → Keeps P (raise {A = A} x)
  unfolding raise
  Keeps-raise x = record { through = λ w h. h }

  pub Keeps-or_raise : (x : Failure) (o : Option A) → Keeps P (or_raise x o)
  unfolding or_raise
  Keeps-or_raise x none = record { through = λ w h. h }
  Keeps-or_raise x (some a) = record { through = λ w h. h }

  pub Keeps-ignore : (m : M A) → Keeps P m → Keeps P (ignore m)
  unfolding ignore
  Keeps-ignore m k = record { through = λ w h. k.through w h }

  pub Keeps-attempt : (m : M A) → Keeps P m → Keeps P (attempt m)
  unfolding attempt
  Keeps-attempt m k = record { through = λ w h. k.through w h }

  pub Keeps-map_failure : (f : Failure → Failure) (m : M A) → Keeps P m → Keeps P (map_failure f m)
  unfolding map_failure
  Keeps-map_failure f m k = record { through = λ w h. k.through w h }

  pub Keeps-as_status : (code : ℕ) (m : M A) → Keeps P m → Keeps P (as_status code m)
  unfolding as_status
  Keeps-as_status code m k = Keeps-map_failure _ m k

  pub Keeps-call_out : (f : ℕ → Result A) → Keeps P (call_out f)
  unfolding call_out
  Keeps-call_out f = record { through = λ w h. h }

  -- What an action keeps holds where it ends.
  pub Keeps-end :
      (m : M A) (w : World) {r : Result A} {w₁ : World}
      → Keeps P m
      → m w ≡ (r, w₁)
      → P w.db
      → P w₁.db
  Keeps-end m w k e h = subst (λ (p : Result A × World). P p.1.db) e (k.through w h)

  -- Either branch may use the outcome of the test.
  pub Keeps-if :
      (test : Bool) (yes_branch no_branch : M A)
      → (test ≡ true → Keeps P yes_branch)
      → (test ≡ false → Keeps P no_branch)
      → Keeps P (if test then yes_branch else no_branch)
  Keeps-if true yes_branch no_branch k _ = record { through = (k refl).through }
  Keeps-if false yes_branch no_branch _ k = record { through = (k refl).through }

module _ {ℓ} {A B : Type 0} {P : Database → Type ℓ} (next : A → M B) where
  Keeps-continue : ((a : A) → Keeps P (next a)) → (r : Result A) → Keeps P (continue r next)
  unfolding continue raise
  Keeps-continue k (err x) = Keeps-raise x
  Keeps-continue k (ok a) = k a

  pub Keeps-bind :
      (first : M A) → Keeps P first → ((a : A) → Keeps P (next a)) → Keeps P (first >>= next)
  unfolding ◌>>=◌
  Keeps-bind first k ks = record {
    through = λ w h. (Keeps-continue ks (first w).0).through (first w).1 (k.through w h);
  }

module _ {ℓ} {P : Database → Type ℓ} (e : Env) where
  pub Keeps-now : Keeps P (now e)
  unfolding now
  Keeps-now = record { through = λ w h. h }

  pub Keeps-draw_uuid : Keeps P (draw_uuid e)
  unfolding draw_uuid
  Keeps-draw_uuid = record { through = λ w h. h }

  pub Keeps-draw_token : Keeps P (draw_token e)
  unfolding draw_token
  Keeps-draw_token = record { through = λ w h. h }

  pub Keeps-fetch : {A : Type 0} (f : Database → A) → Keeps P (fetch e f)
  unfolding fetch
  Keeps-fetch f = record { through = λ w h. ground arith }

  pub Keeps-write :
      (f : ℕ → Database → Database)
      → ((t : ℕ) (d : Database) → P d → P (f t d))
      → Keeps P (write e f)
  unfolding write
  Keeps-write f k = record { through = λ w h. ground (arith, k (e.clock w.steps) w.db h) }

  pub Keeps-write_if :
      (allowed : Database → Bool) (f : ℕ → Database → Database)
      → ((t : ℕ) (d : Database) → allowed d ≡ true → P d → P (f t d))
      → Keeps P (write_if e allowed f)
  unfolding write_if
  Keeps-write_if allowed f k = record {
    through = λ w h. elim (Bool-cases (allowed w.db)) [
      | inl a ↦ ground (arith, k (e.clock w.steps) w.db a h)
      | inr n ↦ ground arith
    ];
  }

  pub Keeps-send : (mail : Mail) → Keeps P (send e mail)
  unfolding send
  Keeps-send mail = record { through = λ w h. ground arith }

pub ruleset keeps_rules = (
  Keeps-pure, Keeps-raise, Keeps-or_raise, Keeps-ignore, Keeps-attempt, Keeps-map_failure,
  Keeps-as_status, Keeps-call_out, Keeps-if, Keeps-bind, Keeps-now, Keeps-draw_uuid,
  Keeps-draw_token, Keeps-fetch, Keeps-write, Keeps-write_if, Keeps-send,
)
