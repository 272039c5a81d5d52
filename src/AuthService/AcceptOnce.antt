-- ===== src/AuthService/AcceptOnce.antt =====
-- An invitation is accepted once, whatever else is called in between and whatever fails.
use mathlib.Core.Option
use mathlib.Core.Path.{subst₂}
use lala_search.Prelude.{
  ℕ, ◌≡◌, refl, ◌≢◌, sym, ◌∙◌, ap, subst, true, Option, none, some, List, arith, if◌then◌else◌,
}
use lala_search.Prelude.Text.{Text}
use lala_search.Prelude.Table.{select_one, update_rows}
use lala_search.Prelude.Table.Laws.{select_one-append, select_one-update_rows, select_one_sound}
use lala_search.Models.Auth.{User, OrgInvitation, invitation_is_valid}
use lala_search.Models.Rows.{InvitationRow}
use lala_search.World.{Database, World, Env, tick, ok}
use lala_search.World.Keeps.{Keeps-write, Keeps-write_if, keeps_rules}
use lala_search.World.Success.{
  bind-eq-ok, or_raise-eq-ok, if-raise-eq-ok, now-eq-ok, fetch-eq-ok, write-eq-ok,
}
use lala_search.AuthDb.Users.{
  create_user, update_user_last_login, set_user_email_verified, create_tenant,
}
use lala_search.AuthDb.Sessions.{
  create_session, delete_session, delete_user_sessions, touch_session,
}
use lala_search.AuthDb.MagicLinks.{
  create_magic_link_token, mark_magic_link_used, reset_magic_link_send_attempts,
}
use lala_search.AuthDb.Organizations.{
  is_invitation, to_invitation, add_org_membership, remove_org_membership, create_invitation,
  get_invitation, mark_invitation_accepted,
}
use lala_search.AuthDb.Stable.{Stable, finishes_of}
use lala_search.AuthService.Config.{AuthConfig, hash_token}
use lala_search.AuthService.Members.{join, accept_invitation}
use lala_search.AuthService.Stable.{enroll-Keeps}
use lala_search.AuthService.Calls.{Call, run, run-Keeps}

-- The invitation with this digest is there and is marked as accepted.
abbrev pub IsAccepted : Text → Database → Type 0
IsAccepted h d =
    (i : InvitationRow) × (select_one (is_invitation h) d.org_invitations ≡ some i)
    × (i.accepted ≡ true)

module _ (h : Text) where
  abbrev mark : InvitationRow → InvitationRow
  mark r = record r { accepted = true }

  mark-IsAccepted :
      (g : Text) (rows : List InvitationRow) {i : InvitationRow}
      → select_one (is_invitation h) rows ≡ some i
      → i.accepted ≡ true
      → (j : InvitationRow) × (select_one
            (is_invitation h)
            (update_rows (is_invitation g) mark rows)
          ≡ some j)
        × (j.accepted ≡ true)
  mark-IsAccepted g rows {i} found accepted = (
    if is_invitation g i then mark i else i,
    rw (select_one-update_rows (is_invitation h) (is_invitation g) mark (λ r _. refl) rows, found)
        refl,
    ground arith,
  )

  mark_self :
      (rows : List InvitationRow) {i : InvitationRow}
      → select_one (is_invitation h) rows ≡ some i
      → select_one (is_invitation h) (update_rows (is_invitation h) mark rows) ≡ some (mark i)
  mark_self rows found =
      rw (select_one-update_rows (is_invitation h) (is_invitation h) mark (λ r _. refl) rows, found)
        (rw (select_one_sound (is_invitation h) rows found))

module _ (e : Env) (h : Text) where
  pub IsAccepted-Stable : Stable e (IsAccepted h)
  unfolding create_user update_user_last_login set_user_email_verified create_tenant create_session
      delete_session delete_user_sessions touch_session create_magic_link_token mark_magic_link_used
      reset_magic_link_send_attempts add_org_membership remove_org_membership create_invitation
      mark_invitation_accepted
  IsAccepted-Stable = record {
    creates_user = λ email. search keeps_rules depth 9;
    logs_in = λ i. search keeps_rules;
    verifies = λ i. search keeps_rules;
    creates_tenant = λ i name. search keeps_rules;
    creates_session = λ p. search keeps_rules;
    deletes_session = λ g. search keeps_rules;
    deletes_sessions = λ i. search keeps_rules;
    touches = λ g. search keeps_rules;
    creates_token = λ p. search keeps_rules;
    uses_token = λ g. search keeps_rules;
    finishes = finishes_of e (IsAccepted h) (λ rows d k. k);
    resets = λ email. search keeps_rules;
    adds_member = λ t u r by. search keeps_rules;
    removes_member = λ t u. search keeps_rules;
    invites = λ p.
        Keeps-write_if e _ _
          λ t d _ k. (k.0, select_one-append (is_invitation h) d.org_invitations _ k.1, k.2);
    accepts = λ g. Keeps-write e _ λ t d k. mark-IsAccepted h g d.org_invitations k.1 k.2;
  }

-- What the success of `accept_invitation` says of its invitation.
pub record Admitted (e : Env) (config : AuthConfig) (token : Text) (agent ip : Option Text)
    (w : World) (r : Text × User × ℕ) (w' : World) : Type 0 where
  pub invite : InvitationRow
  pub found : select_one (is_invitation (hash_token e token)) w.org_invitations ≡ some invite
  pub valid : invitation_is_valid (to_invitation invite) (e.clock (tick w).steps) ≡ true
  pub joined :
      join e config (hash_token e token) (to_invitation invite) agent ip (tick w) ≡ (ok r, w')

module _ (e : Env) (config : AuthConfig) (token : Text) (agent ip : Option Text) where
  -- The answer of `get_invitation` as a row.
  row_of :
      (o : Option InvitationRow) {i : OrgInvitation}
      → Option.map to_invitation o ≡ some i
      → (r : InvitationRow) × (o ≡ some r) × (i ≡ to_invitation r)
  row_of none h = cc
  row_of (some r) h = (r, refl, ground (arith, h))

  pub accept-Admitted :
      (w : World) {r : Text × User × ℕ} {w' : World}
      → accept_invitation e config token agent ip w ≡ (ok r, w')
      → Admitted e config token agent ip w r w'
  unfolding accept_invitation get_invitation
  accept-Admitted w {r} {w'} accepted =
      let (o, w₁, fetched, s₁) = bind-eq-ok _ _ w accepted in
      let (same, at₁) = fetch-eq-ok e _ w fetched in
      let (i, w₂, there, s₂) = bind-eq-ok _ _ w₁ s₁ in
      let (is, at₂) = or_raise-eq-ok _ o w₁ there in
      let (t, w₃, read, s₃) = bind-eq-ok _ _ w₂ s₂ in
      let (time, at₃) = now-eq-ok e w₂ read in
      let (valid, joined) = if-raise-eq-ok (invitation_is_valid i t) _ _ w₃ s₃ in
      let (row, found, i_is) = row_of _ (sym same ∙ is) in
      record {
        invite = row;
        found = found;
        valid =
            subst₂ (λ j x. invitation_is_valid j x ≡ true) i_is
              (time ∙ ap (λ (x : World). e.clock x.steps) (at₂ ∙ at₁)) valid;
        joined =
            subst₂ (λ j v. join e config (hash_token e token) j agent ip v ≡ (ok r, w')) i_is
              (at₃ ∙ at₂ ∙ at₁) joined;
      }

  -- An invitation that is marked as accepted is refused.
  accept_of_IsAccepted :
      (w : World)
      → IsAccepted (hash_token e token) w.db
      → {r : Text × User × ℕ} {w' : World}
      → accept_invitation e config token agent ip w ≢ (ok r, w')
  unfolding invitation_is_valid
  accept_of_IsAccepted w (i, found, used) accepted =
      let a = accept-Admitted w accepted in ground (arith, a.found, found, used, a.valid)

  join-IsAccepted :
      (i : OrgInvitation) (row : InvitationRow) (w : World)
      → select_one (is_invitation (hash_token e token)) w.org_invitations ≡ some row
      → {r : Text × User × ℕ} {w' : World}
      → join e config (hash_token e token) i agent ip w ≡ (ok r, w')
      → IsAccepted (hash_token e token) w'.db
  unfolding join mark_invitation_accepted
  join-IsAccepted i row w found done =
      let h = hash_token e token in
      let (_, w₁, marked, rest) = bind-eq-ok _ _ w done in
      let accepted : IsAccepted h w₁.db =
        rw (write-eq-ok e _ w marked) (mark h row, mark_self h w.org_invitations found, refl) in
      subst (λ p. IsAccepted h p.1.db) rest
        ((enroll-Keeps e config (IsAccepted h) (IsAccepted-Stable e h) i agent ip).through w₁
          accepted)

module _ (e : Env) (config : AuthConfig) (token : Text) where
  -- Once an invitation has been accepted, no later call accepts it again, from whatever browser and
  -- address, whatever calls of the service come in between and whichever of their queries fail.
  pub accept_invitation-once :
      (agent ip : Option Text) (w : World) (r : Text × User × ℕ) (w₁ : World)
      → accept_invitation e config token agent ip w ≡ (ok r, w₁)
      → (cs : List Call) (agent' ip' : Option Text) (r' : Text × User × ℕ) (w₂ : World)
      → accept_invitation e config token agent' ip' (run e config w₁ cs) ≢ (ok r', w₂)
  unfolding tick
  accept_invitation-once agent ip w r w₁ accepted cs agent' ip' r' w₂ =
      let a = accept-Admitted e config token agent ip w accepted in
      let h = hash_token e token in
      let is : IsAccepted h w₁.db =
        join-IsAccepted e config token agent ip _ a.invite (tick w) a.found a.joined in
      accept_of_IsAccepted e config token agent' ip' (run e config w₁ cs)
        (run-Keeps e config (IsAccepted h) (IsAccepted-Stable e h) w₁ cs is)
