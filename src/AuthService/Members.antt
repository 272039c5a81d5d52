-- ===== src/AuthService/Members.antt =====
-- lala-agent/src/services/auth.rs: invitations to an organization, and its members.
use lala_search.Prelude.{ℕ, ◌+◌, not, ◌&&◌, Option, none, some, List, ◌==◌, if◌then◌else◌}
use lala_search.Prelude.Text.{Text}
use lala_search.Models.UserRole.{UserRole, owner, admin, role_eq}
use lala_search.Models.Auth.{
  User, OrgMembership, OrgInvitation, AuthUser, invitation_is_valid, can_invite,
  can_manage_settings, can_remove_members,
}
use lala_search.World.{
  invite_not_permitted, invalid_or_expired_invitation, expired_or_accepted_invitation,
  view_not_permitted, remove_not_permitted, cannot_remove_yourself, not_a_member,
  only_owners_remove_admins, owners_cannot_be_removed, user_creation_failed, invitation, Env, M,
  pure, raise, or_raise, now, send, ◌>>=◌, ◌>>◌,
}
use lala_search.AuthDb.Users.{
  get_user_by_email, get_user_by_id, create_user, set_user_email_verified,
}
use lala_search.AuthDb.Organizations.{
  add_org_membership, get_org_membership, get_org_members, get_user_orgs, remove_org_membership,
  create_invitation, get_invitation, mark_invitation_accepted,
}
use lala_search.AuthService.Config.{AuthConfig, days, hash_token, generate_token}
use lala_search.AuthService.Sessions.{create_user_session}

pub record InviteRequest : Type 0 where
  pub tenant_id : ℕ
  pub tenant_name : Text
  pub email : Text
  pub role : UserRole
  pub inviter : AuthUser

module _ (e : Env) (config : AuthConfig) where
  unfoldable pub invite_user : InviteRequest → M (Unit {0})
  invite_user invite = if not (can_invite invite.inviter) then raise invite_not_permitted else do
    (raw_token, token_hash) ← generate_token e
    t ← now e
    create_invitation e (record {
      token_hash = token_hash;
      tenant_id = invite.tenant_id;
      email = invite.email;
      role = invite.role;
      invited_by = invite.inviter.user_id;
      expires_at = t + days config.invitation_expiry_days;
    })
    send e (invitation invite.email invite.tenant_name invite.inviter.email raw_token)

  unfoldable pub invited_user : Text → Option User → M User
  invited_user email (some user) = pure user
  invited_user email none = do
    user_id ← create_user e email
    set_user_email_verified e user_id
    found ← get_user_by_id e user_id
    or_raise user_creation_failed found

  unfoldable pub get_or_create_invited_user : Text → M User
  get_or_create_invited_user email = do found ← get_user_by_email e email; invited_user email found

  -- What follows the marking of the invitation.
  unfoldable pub enroll : OrgInvitation → Option Text → Option Text → M (Text × User × ℕ)
  enroll invite user_agent ip_address = do
    user ← get_or_create_invited_user invite.email
    add_org_membership e invite.tenant_id user.user_id invite.role (some invite.invited_by)
    session_token ← create_user_session e config user.user_id invite.tenant_id user_agent ip_address
    pure (session_token, user, invite.tenant_id)

  -- What follows the check of the invitation.
  unfoldable pub join : Text → OrgInvitation → Option Text → Option Text → M (Text × User × ℕ)
  join token_hash invite user_agent ip_address = do
    mark_invitation_accepted e token_hash
    enroll invite user_agent ip_address

  unfoldable pub accept_invitation : Text → Option Text → Option Text → M (Text × User × ℕ)
  accept_invitation token user_agent ip_address = do
    found ← get_invitation e (hash_token e token)
    invite ← or_raise invalid_or_expired_invitation found
    t ← now e
    if invitation_is_valid invite t
        then join (hash_token e token) invite user_agent ip_address
        else raise expired_or_accepted_invitation

module _ (e : Env) where
  unfoldable pub get_user_organizations : ℕ → M (List OrgMembership)
  get_user_organizations user_id = get_user_orgs e user_id

  unfoldable pub list_org_members : ℕ → AuthUser → M (List OrgMembership)
  list_org_members tenant_id requester =
      if can_manage_settings requester
      then get_org_members e tenant_id
      else raise view_not_permitted

  -- What follows the lookup of the target's membership.
  unfoldable pub remove_target : ℕ → ℕ → AuthUser → OrgMembership → M (Unit {0})
  remove_target tenant_id user_id requester target =
      if role_eq target.role admin && not (role_eq requester.role owner)
      then raise only_owners_remove_admins
      else if role_eq target.role owner
      then raise owners_cannot_be_removed
      else remove_org_membership e tenant_id user_id

  unfoldable pub remove_member : ℕ → ℕ → AuthUser → M (Unit {0})
  remove_member tenant_id user_id requester =
      if not (can_remove_members requester)
      then raise remove_not_permitted
      else if requester.user_id == user_id
      then raise cannot_remove_yourself
      else do
        found ← get_org_membership e tenant_id user_id
        target ← or_raise not_a_member found
        remove_target tenant_id user_id requester target
