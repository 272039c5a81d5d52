-- ===== src/AuthService/SingleUse.antt =====
-- A magic link signs in once, whatever else is called in between and whatever fails.
use lala_search.Prelude.{
  ℕ, ◌≡◌, refl, ◌≢◌, sym, ◌∙◌, ap, subst, true, Option, some, List, arith, if◌then◌else◌,
}
use lala_search.Prelude.Text.{Text}
use lala_search.Prelude.Table.{select_one, update_rows}
use lala_search.Prelude.Table.Laws.{select_one-append, select_one-update_rows, select_one_sound}
use lala_search.Models.Auth.{User, MagicLinkToken, token_is_valid}
use lala_search.World.{Database, World, Env, tick, ok}
use lala_search.World.Keeps.{Keeps-write, Keeps-write_if, keeps_rules}
use lala_search.World.Success.{
  bind-eq-ok, or_raise-eq-ok, if-raise-eq-ok, now-eq-ok, fetch-eq-ok, write-eq-ok,
}
use lala_search.AuthDb.Users.{
  create_user, update_user_last_login, set_user_email_verified, create_tenant,
}
use lala_search.AuthDb.Sessions.{
  create_session, delete_session, delete_user_sessions, touch_session,
}
use lala_search.AuthDb.MagicLinks.{
  is_token, create_magic_link_token, get_magic_link_token, mark_magic_link_used,
  reset_magic_link_send_attempts,
}
use lala_search.AuthDb.Organizations.{
  add_org_membership, remove_org_membership, create_invitation, mark_invitation_accepted,
}
use lala_search.AuthDb.Stable.{Stable, finishes_of}
use lala_search.AuthService.Config.{AuthConfig, hash_token}
use lala_search.AuthService.SignIn.{redeem, verify_magic_link}
use lala_search.AuthService.Stable.{sign_in-Keeps}
use lala_search.AuthService.Calls.{Call, run, run-Keeps}

-- The token with this digest is there and is marked as used.
abbrev pub IsSpent : Text → Database → Type 0
IsSpent h d =
    (t : MagicLinkToken) × (select_one (is_token h) d.magic_link_tokens ≡ some t) × (t.used ≡ true)

module _ (h : Text) where
  abbrev mark : MagicLinkToken → MagicLinkToken
  mark r = record r { used = true }

  mark-IsSpent :
      (g : Text) (rows : List MagicLinkToken) {t : MagicLinkToken}
      → select_one (is_token h) rows ≡ some t
      → t.used ≡ true
      → (u : MagicLinkToken) × (select_one (is_token h) (update_rows (is_token g) mark rows)
          ≡ some u)
        × (u.used ≡ true)
  mark-IsSpent g rows {t} found used = (
    if is_token g t then mark t else t,
    rw (select_one-update_rows (is_token h) (is_token g) mark (λ r _. refl) rows, found) refl,
    ground arith,
  )

  mark_self :
      (rows : List MagicLinkToken) {t : MagicLinkToken}
      → select_one (is_token h) rows ≡ some t
      → select_one (is_token h) (update_rows (is_token h) mark rows) ≡ some (mark t)
  mark_self rows found =
      rw (select_one-update_rows (is_token h) (is_token h) mark (λ r _. refl) rows, found)
        (rw (select_one_sound (is_token h) rows found))

module _ (e : Env) (h : Text) where
  pub IsSpent-Stable : Stable e (IsSpent h)
  unfolding create_user update_user_last_login set_user_email_verified create_tenant create_session
      delete_session delete_user_sessions touch_session create_magic_link_token mark_magic_link_used
      reset_magic_link_send_attempts add_org_membership remove_org_membership create_invitation
      mark_invitation_accepted
  IsSpent-Stable = record {
    creates_user = λ email. search keeps_rules depth 9;
    logs_in = λ i. search keeps_rules;
    verifies = λ i. search keeps_rules;
    creates_tenant = λ i name. search keeps_rules;
    creates_session = λ p. search keeps_rules;
    deletes_session = λ g. search keeps_rules;
    deletes_sessions = λ i. search keeps_rules;
    touches = λ g. search keeps_rules;
    creates_token = λ p.
        Keeps-write_if e _ _
          λ t d _ k. (k.0, select_one-append (is_token h) d.magic_link_tokens _ k.1, k.2);
    uses_token = λ g. Keeps-write e _ λ t d k. mark-IsSpent h g d.magic_link_tokens k.1 k.2;
    finishes = finishes_of e (IsSpent h) (λ rows d k. k);
    resets = λ email. search keeps_rules;
    adds_member = λ t u r by. search keeps_rules;
    removes_member = λ t u. search keeps_rules;
    invites = λ p. search keeps_rules;
    accepts = λ g. search keeps_rules;
  }

-- What the success of `verify_magic_link` says of its token.
pub record Verified (e : Env) (config : AuthConfig) (token : Text) (agent ip : Option Text)
    (default : ℕ) (w : World) (r : Text × User × ℕ) (w' : World) : Type 0 where
  pub magic_token : MagicLinkToken
  pub found : select_one (is_token (hash_token e token)) w.magic_link_tokens ≡ some magic_token
  pub valid : token_is_valid magic_token (e.clock (tick w).steps) ≡ true
  pub redeemed :
      redeem e config (hash_token e token) magic_token agent ip default (tick w) ≡ (ok r, w')

module _ (e : Env) (config : AuthConfig) (token : Text) (agent ip : Option Text) (default : ℕ) where
  pub verify-Verified :
      (w : World) {r : Text × User × ℕ} {w' : World}
      → verify_magic_link e config token agent ip default w ≡ (ok r, w')
      → Verified e config token agent ip default w r w'
  unfolding verify_magic_link get_magic_link_token
  verify-Verified w signed =
      let (o, w₁, fetched, s₁) = bind-eq-ok _ _ w signed in
      let (same, at₁) = fetch-eq-ok e _ w fetched in
      let (t, w₂, there, s₂) = bind-eq-ok _ _ w₁ s₁ in
      let (is, at₂) = or_raise-eq-ok _ o w₁ there in
      let (t', w₃, read, s₃) = bind-eq-ok _ _ w₂ s₂ in
      let (time, at₃) = now-eq-ok e w₂ read in
      let (valid, redeemed) = if-raise-eq-ok (token_is_valid t t') _ _ w₃ s₃ in
      let at : w₃ ≡ tick w = at₃ ∙ at₂ ∙ at₁ in
      record {
        magic_token = t;
        found = sym same ∙ is;
        valid =
            subst (λ x. token_is_valid t x ≡ true)
              (time ∙ ap (λ (x : World). e.clock x.steps) (at₂ ∙ at₁)) valid;
        redeemed = rw at at redeemed;
      }

  -- A token that is marked as used is refused.
  verify_of_IsSpent :
      (w : World)
      → IsSpent (hash_token e token) w.db
      → {r : Text × User × ℕ} {w' : World}
      → verify_magic_link e config token agent ip default w ≢ (ok r, w')
  unfolding token_is_valid
  verify_of_IsSpent w (t, found, used) signed =
      let v = verify-Verified w signed in ground (arith, v.found, found, used, v.valid)

  redeem-IsSpent :
      (t : MagicLinkToken) (w : World)
      → select_one (is_token (hash_token e token)) w.magic_link_tokens ≡ some t
      → {r : Text × User × ℕ} {w' : World}
      → redeem e config (hash_token e token) t agent ip default w ≡ (ok r, w')
      → IsSpent (hash_token e token) w'.db
  unfolding redeem mark_magic_link_used
  redeem-IsSpent t w found done =
      let h = hash_token e token in
      let (_, w₁, marked, rest) = bind-eq-ok _ _ w done in
      let spent : IsSpent h w₁.db =
        rw (write-eq-ok e _ w marked) (mark h t, mark_self h w.magic_link_tokens found, refl) in
      subst (λ p. IsSpent h p.1.db) rest
        ((sign_in-Keeps e config (IsSpent h) (IsSpent-Stable e h) t agent ip default).through w₁
          spent)

module _ (e : Env) (config : AuthConfig) (token : Text) where
  -- Once a token has signed somebody in, no later call with that token does, from whatever browser
  -- and address and for whatever default tenant, whatever calls of the service come in between and
  -- whichever of their queries fail.
  pub verify_magic_link-once :
      (agent ip : Option Text) (default : ℕ) (w : World) (r : Text × User × ℕ) (w₁ : World)
      → verify_magic_link e config token agent ip default w ≡ (ok r, w₁)
      → (cs : List Call) (agent' ip' : Option Text) (default' : ℕ) (r' : Text × User × ℕ)
        (w₂ : World)
      → verify_magic_link e config token agent' ip' default' (run e config w₁ cs) ≢ (ok r', w₂)
  unfolding tick
  verify_magic_link-once agent ip default w r w₁ signed cs agent' ip' default' r' w₂ =
      let v = verify-Verified e config token agent ip default w signed in
      let h = hash_token e token in
      let spent : IsSpent h w₁.db =
        redeem-IsSpent e config token agent ip default v.magic_token (tick w) v.found v.redeemed in
      verify_of_IsSpent e config token agent' ip' default' (run e config w₁ cs)
        (run-Keeps e config (IsSpent h) (IsSpent-Stable e h) w₁ cs spent)
