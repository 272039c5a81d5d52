-- ===== src/AuthService/Stable.antt =====
-- What every query keeps, every method of lala-agent/src/services/auth.rs keeps, whether it
-- succeeds or fails on the way.
use lala_search.Prelude.{ℕ, Bool, Option, none, some}
use lala_search.Prelude.Text.{Text}
use lala_search.Models.Auth.{User, Session, MagicLinkToken, OrgInvitation, OrgMembership, AuthUser}
use lala_search.Models.Throttle.{
  MagicLinkSendDecision, allow, cooldown_for, blocked_for, permanently_blocked,
}
use lala_search.World.{Database, Env}
use lala_search.World.Keeps.{Keeps, keeps_rules}
use lala_search.AuthDb.MagicLinks.{consume_magic_link_send_attempt}
use lala_search.AuthDb.Stable.{Stable, reads}
use lala_search.AuthService.Config.{AuthConfig, generate_token}
use lala_search.AuthService.Sessions.{
  create_user_session, authenticate, drop_expired, validate_found, validate_session, sign_out,
  sign_out_all,
}
use lala_search.AuthService.SignIn.{
  check_decision, request_magic_link, update_existing_user, create_new_user, update_or_create,
  get_or_create_user, create_user_with_new_tenant, resolve_or_create_user, resolve_session_tenant,
  sign_in_user, enter, sign_in, redeem, verify_magic_link,
}
use lala_search.AuthService.Members.{
  InviteRequest, invite_user, invited_user, get_or_create_invited_user, enroll, join,
  accept_invitation, remove_target, remove_member,
}

module _ (e : Env) (config : AuthConfig) (P : Database → Type 0) (s : Stable e P) where
  generates : Keeps P (generate_token e)
  unfolding generate_token
  generates = search keeps_rules

  pub create_user_session-Keeps :
      (u t : ℕ) (agent ip : Option Text) → Keeps P (create_user_session e config u t agent ip)
  unfolding create_user_session
  create_user_session-Keeps u t agent ip = search (keeps_rules, generates, s.creates_session)

  pub authenticate-Keeps : (h : Text) (r : Session) → Keeps P (authenticate e h r)
  unfolding authenticate
  authenticate-Keeps h r = search (keeps_rules, reads, s.touches) depth 12

  update_existing_user-Keeps : (u : User) → Keeps P (update_existing_user e config u)
  unfolding update_existing_user
  update_existing_user-Keeps u = search (keeps_rules, reads, s.logs_in, s.verifies)

  create_new_user-Keeps : (email : Text) (t : ℕ) → Keeps P (create_new_user e config email t)
  unfolding create_new_user
  create_new_user-Keeps email t =
      search (keeps_rules, reads, s.creates_user, s.verifies, s.adds_member)

  update_or_create-Keeps :
      (email : Text) (t : ℕ) (o : Option User) → Keeps P (update_or_create e config email t o)
  unfolding update_or_create
  update_or_create-Keeps email t (some u) = update_existing_user-Keeps u
  update_or_create-Keeps email t none = create_new_user-Keeps email t

  get_or_create_user-Keeps : (email : Text) (t : ℕ) → Keeps P (get_or_create_user e config email t)
  unfolding get_or_create_user
  get_or_create_user-Keeps email t = search (keeps_rules, reads, update_or_create-Keeps)

  create_user_with_new_tenant-Keeps :
      (email : Text) → Keeps P (create_user_with_new_tenant e config email)
  unfolding create_user_with_new_tenant
  create_user_with_new_tenant-Keeps email =
      search (keeps_rules, get_or_create_user-Keeps, s.creates_tenant, s.adds_member) depth 9

  resolve_or_create_user-Keeps :
      (email : Text) (t : ℕ) (root : Bool) (default : ℕ)
      → Keeps P (resolve_or_create_user e config email t root default)
  unfolding resolve_or_create_user
  resolve_or_create_user-Keeps email t root default =
      search (keeps_rules, get_or_create_user-Keeps, s.adds_member) depth 9

  resolve_session_tenant-Keeps :
      (u default : ℕ) → Keeps P (resolve_session_tenant e config u default)
  unfolding resolve_session_tenant
  resolve_session_tenant-Keeps u default = search (keeps_rules, reads)

  sign_in_user-Keeps :
      (t : MagicLinkToken) (o : Option User) (default : ℕ)
      → Keeps P (sign_in_user e config t o default)
  unfolding sign_in_user
  sign_in_user-Keeps t o default =
      search (keeps_rules, create_user_with_new_tenant-Keeps, resolve_or_create_user-Keeps)

  pub enter-Keeps :
      (t : MagicLinkToken) (agent ip : Option Text) (default : ℕ) (o : Option User)
      → Keeps P (enter e config t agent ip default o)
  unfolding enter
  enter-Keeps t agent ip default o =
      search
        (keeps_rules, sign_in_user-Keeps, resolve_session_tenant-Keeps, create_user_session-Keeps)
        depth 9

  pub sign_in-Keeps :
      (t : MagicLinkToken) (agent ip : Option Text) (default : ℕ)
      → Keeps P (sign_in e config t agent ip default)
  unfolding sign_in
  sign_in-Keeps t agent ip default = search (keeps_rules, reads, enter-Keeps, s.resets) depth 9

  pub redeem-Keeps :
      (h : Text) (t : MagicLinkToken) (agent ip : Option Text) (default : ℕ)
      → Keeps P (redeem e config h t agent ip default)
  unfolding redeem
  redeem-Keeps h t agent ip default = search (keeps_rules, sign_in-Keeps, s.uses_token)

  pub verify_magic_link-Keeps :
      (token : Text) (agent ip : Option Text) (default : ℕ)
      → Keeps P (verify_magic_link e config token agent ip default)
  unfolding verify_magic_link
  verify_magic_link-Keeps token agent ip default = search (keeps_rules, reads, redeem-Keeps) depth 9

  check_decision-Keeps : (d : MagicLinkSendDecision) → Keeps P (check_decision d)
  unfolding check_decision
  check_decision-Keeps allow = search keeps_rules
  check_decision-Keeps (cooldown_for r) = search keeps_rules
  check_decision-Keeps (blocked_for r) = search keeps_rules
  check_decision-Keeps permanently_blocked = search keeps_rules

  consume-Keeps :
      (email : Text) (now cooldown most window permanent : ℕ)
      → Keeps P (consume_magic_link_send_attempt e email now cooldown most window permanent)
  unfolding consume_magic_link_send_attempt
  consume-Keeps email now cooldown most window permanent = search (keeps_rules, s.finishes) depth 9

  pub request_magic_link-Keeps : (email : Text) → Keeps P (request_magic_link e config email)
  unfolding request_magic_link
  request_magic_link-Keeps email =
      search (keeps_rules, generates, consume-Keeps, check_decision-Keeps, s.creates_token) depth 14

  drop_expired-Keeps : (h : Text) → Keeps P (drop_expired e h)
  unfolding drop_expired
  drop_expired-Keeps h = search (keeps_rules, s.deletes_session)

  validate_found-Keeps : (h : Text) (o : Option Session) → Keeps P (validate_found e h o)
  unfolding validate_found
  validate_found-Keeps h none = search keeps_rules
  validate_found-Keeps h (some r) = search (keeps_rules, drop_expired-Keeps, authenticate-Keeps)

  pub validate_session-Keeps : (token : Text) → Keeps P (validate_session e token)
  unfolding validate_session
  validate_session-Keeps token = search (keeps_rules, reads, validate_found-Keeps)

  pub sign_out-Keeps : (token : Text) → Keeps P (sign_out e token)
  unfolding sign_out
  sign_out-Keeps token = s.deletes_session _

  pub sign_out_all-Keeps : (u : ℕ) → Keeps P (sign_out_all e u)
  unfolding sign_out_all
  sign_out_all-Keeps u = s.deletes_sessions u

  pub invite_user-Keeps : (r : InviteRequest) → Keeps P (invite_user e config r)
  unfolding invite_user
  invite_user-Keeps r = search (keeps_rules, generates, s.invites) depth 9

  invited_user-Keeps : (email : Text) (o : Option User) → Keeps P (invited_user e config email o)
  unfolding invited_user
  invited_user-Keeps email (some u) = search keeps_rules
  invited_user-Keeps email none = search (keeps_rules, reads, s.creates_user, s.verifies) depth 9

  get_or_create_invited_user-Keeps :
      (email : Text) → Keeps P (get_or_create_invited_user e config email)
  unfolding get_or_create_invited_user
  get_or_create_invited_user-Keeps email = search (keeps_rules, reads, invited_user-Keeps)

  pub enroll-Keeps :
      (i : OrgInvitation) (agent ip : Option Text) → Keeps P (enroll e config i agent ip)
  unfolding enroll
  enroll-Keeps i agent ip =
      search
        (keeps_rules, get_or_create_invited_user-Keeps, create_user_session-Keeps, s.adds_member)
        depth 9

  pub join-Keeps :
      (h : Text) (i : OrgInvitation) (agent ip : Option Text) → Keeps P (join e config h i agent ip)
  unfolding join
  join-Keeps h i agent ip = search (keeps_rules, enroll-Keeps, s.accepts) depth 9

  pub accept_invitation-Keeps :
      (token : Text) (agent ip : Option Text) → Keeps P (accept_invitation e config token agent ip)
  unfolding accept_invitation
  accept_invitation-Keeps token agent ip = search (keeps_rules, reads, join-Keeps) depth 9

  remove_target-Keeps :
      (t u : ℕ) (r : AuthUser) (m : OrgMembership) → Keeps P (remove_target e t u r m)
  unfolding remove_target
  remove_target-Keeps t u r m = search (keeps_rules, s.removes_member) depth 9

  pub remove_member-Keeps : (t u : ℕ) (r : AuthUser) → Keeps P (remove_member e t u r)
  unfolding remove_member
  remove_member-Keeps t u r = search (keeps_rules, reads, remove_target-Keeps) depth 9
