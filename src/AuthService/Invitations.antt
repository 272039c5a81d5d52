-- ===== src/AuthService/Invitations.antt =====
-- Who may invite, and what an invitation leaves.
use lala_search.Prelude.{ℕ, ◌+◌, ◌≡◌, refl, ◌⊎◌, true, false, some, [], ◌∷◌, ◌++◌, ◌≤◌, arith}
use lala_search.Prelude.Text.{Text, text_eq_refl}
use lala_search.Prelude.Table.{select_one, exists_row}
use lala_search.Prelude.Table.Laws.{select_one-added}
use lala_search.Models.UserRole.{owner, admin, parse-as_str}
use lala_search.Models.Rows.{InvitationRow}
use lala_search.Models.Auth.{can_invite, invitation_is_valid}
use lala_search.World.{
  invite_not_permitted, World, Env, invitation, ok, err, tick, pure, raise, now, draw_token,
  write_if, send, ◌>>=◌,
}
use lala_search.AuthDb.Organizations.{
  is_invitation, to_invitation, new_invitation, create_invitation,
}
use lala_search.AuthService.Config.{AuthConfig, days, hash_token, generate_token}
use lala_search.AuthService.Members.{InviteRequest, invite_user}

module _ (e : Env) (config : AuthConfig) (invite : InviteRequest) (w : World) where
  -- The row of the invitation.
  abbrev created_invitation : InvitationRow
  created_invitation =
      new_invitation
        (record {
          token_hash = hash_token e (e.random_hex w.tokens_drawn);
          tenant_id = invite.tenant_id;
          email = invite.email;
          role = invite.role;
          invited_by = invite.inviter.user_id;
          expires_at = e.clock w.steps + days config.invitation_expiry_days;
        })
        (e.clock w.steps)

  invited :
      (invite_user e config invite w).0 ≡ ok tt
      → (can_invite invite.inviter ≡ true)
        × (exists_row (is_invitation (hash_token e (e.random_hex w.tokens_drawn))) w.org_invitations
            ≡ false)
        × ((invite_user e config invite w).1.org_invitations
            ≡ w.org_invitations ++ created_invitation ∷ [])
        × ((invite_user e config invite w).1.outbox
            ≡ w.outbox
              ++ invitation invite.email invite.tenant_name invite.inviter.email
                  (e.random_hex w.tokens_drawn)
                ∷ [])
  unfolding invite_user generate_token create_invitation ◌>>=◌ write_if tick draw_token pure now
      raise send hash_token
  invited done = (ground arith, ground arith, ground arith, ground arith)

  refused :
      can_invite invite.inviter ≡ false
      → invite_user e config invite w ≡ (err invite_not_permitted, w)
  unfolding invite_user raise
  refused barred = ground (arith, barred)

-- When `invite_user` succeeds, the inviter is an owner or an administrator, the letter goes to the
-- invited address, and the token in it opens an invitation to the tenant in the role that was
-- asked for, for the address it was sent to, which may be accepted until the time of the call and
-- the configured number of days.
pub invite_user-invites :
    (e : Env) (config : AuthConfig) (invite : InviteRequest) (w : World)
    → (invite_user e config invite w).0 ≡ ok tt
    → ((invite.inviter.role ≡ owner) ⊎ (invite.inviter.role ≡ admin))
      × (token : Text) × ((invite_user e config invite w).1.outbox
          ≡ w.outbox ++ invitation invite.email invite.tenant_name invite.inviter.email token ∷ [])
      × (row : InvitationRow) × (select_one
            (is_invitation (hash_token e token))
            (invite_user e config invite w).1.org_invitations
          ≡ some row)
      × ((to_invitation row).tenant_id ≡ invite.tenant_id)
      × ((to_invitation row).email ≡ invite.email)
      × ((to_invitation row).role ≡ invite.role)
      × ((time : ℕ)
          → time ≤ e.clock w.steps + days config.invitation_expiry_days
          → invitation_is_valid (to_invitation row) time ≡ true)
unfolding can_invite invitation_is_valid
invite_user-invites e config invite w done =
    let (may, absent, stored, mailed) = invited e config invite w done in
    let token = e.random_hex w.tokens_drawn in
    let row = created_invitation e config invite w in
    (
      ground (arith, may),
      token,
      mailed,
      row,
      rw stored (
          select_one-added (is_invitation (hash_token e token)) w.org_invitations row absent
            (text_eq_refl (hash_token e token))),
      refl,
      refl,
      rw (parse-as_str invite.role) refl,
      λ time early. ground (arith, early),
    )
