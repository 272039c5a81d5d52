-- ===== src/AuthDb/Stable.antt =====
-- Predicates of the database that every query of lala-agent/src/services/auth_db.rs keeps: what the
-- service builds of these queries keeps them too.
use lala_search.Prelude.{ℕ, Option, List}
use lala_search.Prelude.Text.{Text}
use lala_search.Models.UserRole.{UserRole}
use lala_search.Models.Throttle.{
  MagicLinkSendThrottle, MagicLinkSendDecision, allow, cooldown_for, blocked_for,
  permanently_blocked,
}
use lala_search.World.{Database, Env}
use lala_search.World.Keeps.{Keeps, Keeps-fetch, keeps_rules}
use lala_search.AuthDb.Users.{
  get_user_by_email, get_user_by_id, create_user, update_user_last_login, set_user_email_verified,
  create_tenant,
}
use lala_search.AuthDb.Sessions.{
  CreateSessionParams, create_session, get_session, delete_session, delete_user_sessions,
  touch_session,
}
use lala_search.AuthDb.MagicLinks.{
  CreateMagicLinkParams, create_magic_link_token, get_magic_link_token, mark_magic_link_used,
  finish_send_attempt, upsert_throttle, reset_magic_link_send_attempts,
}
use lala_search.AuthDb.Organizations.{
  CreateInvitationParams, add_org_membership, get_org_membership, get_user_orgs, get_org_members,
  remove_org_membership, create_invitation, get_invitation, mark_invitation_accepted,
}

module _ (e : Env) (P : Database → Type 0) where
  pub record Stable : Type 0 where
    pub creates_user : (email : Text) → Keeps P (create_user e email)
    pub logs_in : (i : ℕ) → Keeps P (update_user_last_login e i)
    pub verifies : (i : ℕ) → Keeps P (set_user_email_verified e i)
    pub creates_tenant : (i : ℕ) (name : Text) → Keeps P (create_tenant e i name)
    pub creates_session : (p : CreateSessionParams) → Keeps P (create_session e p)
    pub deletes_session : (h : Text) → Keeps P (delete_session e h)
    pub deletes_sessions : (i : ℕ) → Keeps P (delete_user_sessions e i)
    pub touches : (h : Text) → Keeps P (touch_session e h)
    pub creates_token : (p : CreateMagicLinkParams) → Keeps P (create_magic_link_token e p)
    pub uses_token : (h : Text) → Keeps P (mark_magic_link_used e h)
    pub finishes :
        (r : MagicLinkSendThrottle) (d : MagicLinkSendDecision)
        → Keeps P (finish_send_attempt e r d)
    pub resets : (email : Text) → Keeps P (reset_magic_link_send_attempts e email)
    pub adds_member :
        (t u : ℕ) (r : UserRole) (by : Option ℕ) → Keeps P (add_org_membership e t u r by)
    pub removes_member : (t u : ℕ) → Keeps P (remove_org_membership e t u)
    pub invites : (p : CreateInvitationParams) → Keeps P (create_invitation e p)
    pub accepts : (h : Text) → Keeps P (mark_invitation_accepted e h)

  -- A predicate that says nothing of the throttle's table.
  pub finishes_of :
      ((rows : List MagicLinkSendThrottle) (d : Database)
        → P d
        → P (record d { magic_link_send_attempts = rows }))
      → (r : MagicLinkSendThrottle) (d : MagicLinkSendDecision)
      → Keeps P (finish_send_attempt e r d)
  unfolding finish_send_attempt
  finishes_of k r allow =
      search
        (
          keeps_rules,
          λ (t : ℕ) (d : Database) (h : P d). k (upsert_throttle r d.magic_link_send_attempts) d h,
        )
        depth 9
  finishes_of k r (cooldown_for s) = search keeps_rules depth 9
  finishes_of k r (blocked_for s) = search keeps_rules depth 9
  finishes_of k r permanently_blocked = search keeps_rules depth 9

  pub reads_email : (email : Text) → Keeps P (get_user_by_email e email)
  unfolding get_user_by_email
  reads_email email = Keeps-fetch e _

  pub reads_user : (i : ℕ) → Keeps P (get_user_by_id e i)
  unfolding get_user_by_id
  reads_user i = Keeps-fetch e _

  pub reads_session : (h : Text) → Keeps P (get_session e h)
  unfolding get_session
  reads_session h = Keeps-fetch e _

  pub reads_token : (h : Text) → Keeps P (get_magic_link_token e h)
  unfolding get_magic_link_token
  reads_token h = Keeps-fetch e _

  pub reads_membership : (t u : ℕ) → Keeps P (get_org_membership e t u)
  unfolding get_org_membership
  reads_membership t u = Keeps-fetch e _

  pub reads_orgs : (u : ℕ) → Keeps P (get_user_orgs e u)
  unfolding get_user_orgs
  reads_orgs u = Keeps-fetch e _

  pub reads_members : (t : ℕ) → Keeps P (get_org_members e t)
  unfolding get_org_members
  reads_members t = Keeps-fetch e _

  pub reads_invitation : (h : Text) → Keeps P (get_invitation e h)
  unfolding get_invitation
  reads_invitation h = Keeps-fetch e _

pub ruleset reads = (
  reads_email, reads_user, reads_session, reads_token, reads_membership, reads_orgs, reads_members,
  reads_invitation,
)
