-- ===== src/AuthService/Registration.antt =====
-- Self-registration where there is one tenant.
use lala_search.Prelude.{
  subst, if◌then◌else◌, ap, ◌∙◌, Bool-cases, inl, inr, ℕ, ◌≡◌, refl, ◌≢◌, false, Option, none, some,
  arith,
}
use lala_search.Prelude.Text.{Text, eq_ignore_ascii_case}
use lala_search.Prelude.Table.{select_one}
use lala_search.Models.Auth.{token_is_valid, User, MagicLinkToken}
use lala_search.World.{
  Failure, Database, Result, M, or_raise, self_registration_restricted, invalid_or_expired_token,
  expired_or_used_token, query_failed, continue, World, Env, ok, err, tick, raise, now, fetch,
  write, ◌>>=◌,
}
use lala_search.AuthDb.Users.{has_email, get_user_by_email}
use lala_search.AuthDb.MagicLinks.{
  is_token, get_magic_link_token, mark_magic_link_used, reset_magic_link_send_attempts,
}
use lala_search.AuthService.Config.{AuthConfig, hash_token}
use lala_search.AuthService.SignIn.{is_root_admin, sign_in, enter, redeem, verify_magic_link}

-- The action did not succeed, and these tables are as they were.
record Refused (d : Database) (p : Result (Text × User × ℕ) × World) : Type 0 where
  never : (r : Text × User × ℕ) → p.0 ≢ ok r
  users : p.1.users ≡ d.users
  sessions : p.1.sessions ≡ d.sessions
  org_memberships : p.1.org_memberships ≡ d.org_memberships
  tenants : p.1.tenants ≡ d.tenants

Refused-err : (x : Failure) (w : World) → Refused w.db (err x, w)
Refused-err x w = record {
  never = λ r is. ground (arith, is);
  users = refl;
  sessions = refl;
  org_memberships = refl;
  tenants = refl;
}

module _ (e : Env) (config : AuthConfig) (agent ip : Option Text) (default : ℕ) (t : MagicLinkToken)
    (single : config.multi_tenant ≡ false)
    (stranger : eq_ignore_ascii_case config.root_admin_email t.email ≡ false) where
  enter-Refused :
      (w : World) → enter e config t agent ip default none w ≡ (err self_registration_restricted, w)
  unfolding enter is_root_admin raise
  enter-Refused w = ground (arith, single, stranger)

  -- After a read that failed, or that found nobody.
  Refused-found :
      (r : Result (Option User)) (w : World)
      → ((o : Option User) → r ≡ ok o → o ≡ none)
      → Refused w.db (continue r (enter e config t agent ip default) w)
  unfolding continue
  Refused-found (err x) w h = Refused-err x w
  Refused-found (ok o) w h =
      rw (h o refl, enter-Refused w) (Refused-err self_registration_restricted w)

  -- What the reset of the throttle and the lookup leave.
  looked_up :
      (w : World)
      → select_one (has_email t.email) w.users ≡ none
      → (o : Option User) → (get_user_by_email e t.email w).0 ≡ ok o
      → o ≡ none
  unfolding get_user_by_email fetch
  looked_up w unknown o is = ground (arith, unknown, is)

  lookup-db : (w : World) → (get_user_by_email e t.email w).1.db ≡ w.db
  unfolding get_user_by_email fetch tick
  lookup-db w = ground arith

  lookup-Refused :
      (w : World)
      → select_one (has_email t.email) w.users ≡ none
      → Refused w.db ((get_user_by_email e t.email >>= enter e config t agent ip default) w)
  unfolding ◌>>=◌
  lookup-Refused w unknown =
      subst
        (λ d. Refused d (
          continue (get_user_by_email e t.email w).0 (enter e config t agent ip default)
            (get_user_by_email e t.email w).1))
        (lookup-db w)
        (Refused-found (get_user_by_email e t.email w).0 (get_user_by_email e t.email w).1
          (looked_up w unknown))

  abbrev IsUnknown : World → Type 0
  IsUnknown w = select_one (has_email t.email) w.users ≡ none

  -- A statement that writes none of these tables, before actions that are refused.
  write-Refused :
      (f : ℕ → Database → Database) (rest : M (Text × User × ℕ))
      → ((n : ℕ) (d : Database)
          → ((f n d).users ≡ d.users)
            × ((f n d).sessions ≡ d.sessions)
            × ((f n d).org_memberships ≡ d.org_memberships)
            × ((f n d).tenants ≡ d.tenants))
      → ((w : World) → IsUnknown w → Refused w.db (rest w))
      → (w : World) → IsUnknown w
      → Refused w.db ((write e f >>= λ _. rest) w)
  unfolding ◌>>=◌ write tick
  write-Refused f rest same refuses w unknown = elim (Bool-cases (e.query_fails w.steps)) [
    | inl fails ↦ rw fails (Refused-err query_failed (tick w))
    | inr answers ↦
        let (u, s, m, n) = same (e.clock w.steps) w.db in
        let w₁ : World = tick (record w { db = f (e.clock w.steps) w.db }) in
        let h = refuses w₁ (ap (select_one (has_email t.email)) u ∙ unknown) in
        rw answers (record {
          never = h.never;
          users = h.users ∙ u;
          sessions = h.sessions ∙ s;
          org_memberships = h.org_memberships ∙ m;
          tenants = h.tenants ∙ n;
        })
  ]

  redeem-Refused :
      (h : Text) (w : World) → IsUnknown w → Refused w.db (redeem e config h t agent ip default w)
  unfolding redeem sign_in mark_magic_link_used reset_magic_link_send_attempts
  redeem-Refused h w unknown =
      write-Refused _ _ (λ n d. (refl, refl, refl, refl))
        (λ v u. write-Refused _ _ (λ n d. (refl, refl, refl, refl)) lookup-Refused v u) w unknown

  -- What the lookup of the token leads to.
  verify_after :
      (token : Text) (r : Result (Option MagicLinkToken)) (w : World)
      → ((o : Option MagicLinkToken) → r ≡ ok o → o ≡ some t)
      → IsUnknown w
      → Refused w.db (
          continue r
            (λ found. or_raise invalid_or_expired_token found >>= λ magic_token. now e >>= λ time.
              if token_is_valid magic_token time
              then redeem e config (hash_token e token) magic_token agent ip default
              else raise expired_or_used_token)
            w)
  unfolding continue or_raise now ◌>>=◌ raise
  verify_after token (err x) w h unknown = Refused-err x w
  verify_after token (ok o) w h unknown =
      rw (h o refl) (elim (Bool-cases (token_is_valid t (e.clock w.steps))) [
        | inl valid ↦ rw valid (redeem-Refused (hash_token e token) w unknown)
        | inr invalid ↦ rw invalid (Refused-err expired_or_used_token w)
      ])

  verify-Refused :
      (token : Text) (w : World)
      → select_one (is_token (hash_token e token)) w.magic_link_tokens ≡ some t
      → IsUnknown w
      → Refused w.db (verify_magic_link e config token agent ip default w)
  unfolding verify_magic_link get_magic_link_token fetch tick ◌>>=◌
  verify-Refused token w found unknown = elim (Bool-cases (e.query_fails w.steps)) [
    | inl fails ↦ rw fails (
        verify_after token (err query_failed) (tick w) (λ o is. absurd (ground (arith, is)))
          unknown)
    | inr answers ↦
        rw answers (verify_after token (ok _) (tick w) (λ o is. ground (arith, is, found)) unknown)
  ]

-- Where there is one tenant, a link that was sent to an address nobody is registered with, and
-- that is not the root administrator's, signs nobody in: no user, session, membership or tenant is
-- added, whatever fails.
pub verify_magic_link-restricted :
    (e : Env) (config : AuthConfig) (token : Text) (agent ip : Option Text) (default : ℕ)
    (w : World) (t : MagicLinkToken)
    → config.multi_tenant ≡ false
    → select_one (is_token (hash_token e token)) w.magic_link_tokens ≡ some t
    → eq_ignore_ascii_case config.root_admin_email t.email ≡ false
    → select_one (has_email t.email) w.users ≡ none
    → ((r : Text × User × ℕ) → (verify_magic_link e config token agent ip default w).0 ≢ ok r)
      × ((verify_magic_link e config token agent ip default w).1.users ≡ w.users)
      × ((verify_magic_link e config token agent ip default w).1.sessions ≡ w.sessions)
      × ((verify_magic_link e config token agent ip default w).1.org_memberships
          ≡ w.org_memberships)
      × ((verify_magic_link e config token agent ip default w).1.tenants ≡ w.tenants)
verify_magic_link-restricted e config token agent ip default w t single found stranger unknown =
    let h = verify-Refused e config agent ip default t single stranger token w found unknown in
    (h.never, h.users, h.sessions, h.org_memberships, h.tenants)
