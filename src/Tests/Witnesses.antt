-- ===== src/Tests/Witnesses.antt =====
-- The theorems on the service at concrete calls.
use lala_search.Prelude.{
  ℕ, ◌≡◌, refl, ◌≢◌, ◌⊎◌, true, false, none, some, [], ◌∷◌, ◌≤◌, ◌+◌, ◌*◌, max, ◌↔◌,
}
use lala_search.Prelude.Text.{
  Text, codes, text_eq, trim, trim_start, is_whitespace, eq_ignore_ascii_case, to_ascii_lowercase,
  lower_char,
}
use lala_search.Prelude.Table.{select_one, select_all, exists_row, update_rows, delete_rows}
use lala_search.Models.UserStatus
use lala_search.Models.UserRole
use lala_search.Models.UserRole.{owner, admin, member, role_eq}
use lala_search.Models.Auth.{
  User, AuthUser, MagicLinkToken, token_is_valid, invitation_is_valid, session_is_expired,
  can_invite,
}
use lala_search.Models.Rows.{InvitationRow}
use lala_search.World.{
  Failure, invitation, World, ok, err, tick, pure, raise, or_raise, continue, ◌>>=◌, ignore, now,
  draw_token, fetch, write, write_if, send,
}
use lala_search.AuthDb.Users.{
  has_email, get_user_by_email, get_user_by_id, update_user_last_login, set_user_email_verified,
}
use lala_search.AuthDb.Sessions.{
  create_session, get_session, delete_session, delete_user_sessions, touch_session,
}
use lala_search.AuthDb.MagicLinks.{
  is_token, get_magic_link_token, mark_magic_link_used, reset_magic_link_send_attempts,
}
use lala_search.AuthDb.Organizations.{
  is_invitation, to_invitation, add_org_membership, get_org_membership, get_user_orgs,
  create_invitation, get_invitation, mark_invitation_accepted, upsert_membership,
}
use lala_search.AuthService.Config.{hash_token, generate_token, canonicalize_email_for_rate_limit}
use lala_search.AuthService.Sessions.{
  create_user_session, authenticate, validate_found, validate_session, sign_out, sign_out_all,
}
use lala_search.AuthService.SignIn.{
  is_root_admin, update_existing_user, update_or_create, get_or_create_user, resolve_or_create_user,
  resolve_session_tenant, first_tenant, sign_in_user, enter, sign_in, redeem, verify_magic_link,
}
use lala_search.AuthService.Members.{
  invite_user, invited_user, get_or_create_invited_user, enroll, join, accept_invitation,
  remove_member,
}
use lala_search.AuthService.Calls.{validates, signs_out_all, run}
use lala_search.AuthService.SingleUse.{verify_magic_link-once}
use lala_search.AuthService.AcceptOnce.{accept_invitation-once}
use lala_search.AuthService.Validity.{
  Holds, validate_session_correct, sign_out-validate_session, sign_out_all-validate_session,
}
use lala_search.AuthService.Enrolment.{
  HasSession, IsEnrolled, accept_invitation-IsEnrolled, verify_magic_link-HasSession,
}
use lala_search.AuthService.Removal.{
  MayRemove, IsOwner, without_member, remove_member_correct, remove_member-keeps_IsOwner,
}
use lala_search.AuthService.Registration.{verify_magic_link-restricted}
use lala_search.AuthService.Invitations.{invite_user-invites}
use lala_search.AuthService.RateLimit.{letters_to, request_all, letters_to-request_all}
use lala_search.Tests.Auth.{
  env, config, world, world_with, admin_user, member_user, owner_user, invite_request, link,
}

abbrev signed_world : World
signed_world = (verify_magic_link env config (codes "link") none none 7 world).1

signed :
    verify_magic_link env config (codes "link") none none 7 world
    ≡ (ok ((900 ∷ []), member_user, 7), signed_world)
unfolding verify_magic_link redeem sign_in enter is_root_admin get_magic_link_token
    mark_magic_link_used reset_magic_link_send_attempts get_user_by_email ◌>>=◌ fetch write tick
    raise now hash_token or_raise pure continue select_one update_rows delete_rows text_eq
    eq_ignore_ascii_case to_ascii_lowercase lower_char token_is_valid sign_in_user
    resolve_or_create_user get_or_create_user update_or_create update_existing_user
    update_user_last_login set_user_email_verified get_user_by_id resolve_session_tenant
    get_user_orgs select_all first_tenant create_user_session generate_token draw_token
    create_session write_if exists_row UserStatus.parse UserRole.parse
    canonicalize_email_for_rate_limit trim trim_start is_whitespace
signed = refl

verify_magic_link-once_example :
    verify_magic_link env config
      (codes "link")
      (some (codes "curl"))
      (some (codes "10.0.0.9"))
      8
      (run env config signed_world (validates (codes "s") ∷ signs_out_all 3 ∷ []))
    ≢ (ok ((900 ∷ []), member_user, 7), signed_world)
verify_magic_link-once_example =
    verify_magic_link-once env config (codes "link") none none 7 world ((900 ∷ []), member_user, 7)
      signed_world signed (validates (codes "s") ∷ signs_out_all 3 ∷ []) (some (codes "curl"))
      (some (codes "10.0.0.9")) 8 ((900 ∷ []), member_user, 7) signed_world

verify_magic_link-HasSession_example :
    (t : MagicLinkToken) × (select_one
        (is_token (hash_token env (codes "link")))
        world.magic_link_tokens
      ≡ some t)
    × (token_is_valid t 1001 ≡ true)
    × HasSession env (900 ∷ []) 3 7 signed_world.db
verify_magic_link-HasSession_example =
    verify_magic_link-HasSession env config (codes "link") none none 7 world
      ((900 ∷ []), member_user, 7) signed_world signed

abbrev joined_world : World
joined_world = (accept_invitation env config (codes "join") none none world).1

joined :
    accept_invitation env config (codes "join") none none world
    ≡ (ok ((900 ∷ []), owner_user, 7), joined_world)
unfolding accept_invitation join enroll get_invitation mark_invitation_accepted
    get_or_create_invited_user invited_user get_user_by_email add_org_membership upsert_membership
    create_user_session generate_token draw_token create_session ◌>>=◌ fetch write write_if tick
    raise now hash_token or_raise pure continue select_one update_rows exists_row text_eq
    invitation_is_valid UserStatus.parse UserRole.parse UserRole.as_str
joined = refl

accept_invitation-once_example :
    accept_invitation env config
      (codes "join")
      (some (codes "curl"))
      (some (codes "10.0.0.9"))
      (run env config joined_world (validates (codes "s") ∷ []))
    ≢ (ok ((900 ∷ []), owner_user, 7), joined_world)
accept_invitation-once_example =
    accept_invitation-once env config (codes "join") none none world ((900 ∷ []), owner_user, 7)
      joined_world joined (validates (codes "s") ∷ []) (some (codes "curl"))
      (some (codes "10.0.0.9")) ((900 ∷ []), owner_user, 7) joined_world

accept_invitation-IsEnrolled_example :
    (row : InvitationRow) × (select_one
        (is_invitation (hash_token env (codes "join")))
        world.org_invitations
      ≡ some row)
    × (invitation_is_valid (to_invitation row) 1001 ≡ true)
    × IsEnrolled env (to_invitation row) ((900 ∷ []), owner_user, 7) joined_world.db
accept_invitation-IsEnrolled_example =
    accept_invitation-IsEnrolled env config (codes "join") none none world
      ((900 ∷ []), owner_user, 7) joined_world joined

validate_session_correct_example :
    ((validate_session env (codes "s") world).0 ≡ ok (some admin_user))
    ↔ Holds world.db (hash_token env (codes "s")) 1001 admin_user
validate_session_correct_example =
    validate_session_correct env (codes "s") world admin_user (λ n. refl)

abbrev left_world : World
left_world = (sign_out env (codes "s") world).1

left : sign_out env (codes "s") world ≡ (ok tt, left_world)
unfolding sign_out delete_session write
left = refl

sign_out-validate_session_example :
    (validate_session env (codes "s") left_world).0 ≢ ok (some admin_user)
sign_out-validate_session_example =
    sign_out-validate_session env (codes "s") world left_world left admin_user

-- The session of the user who signs in with the link is not the one that was ended.
abbrev other_world : World
other_world = (sign_out_all env 2 signed_world).1

others_cleared : sign_out_all env 2 signed_world ≡ (ok tt, other_world)
unfolding sign_out_all delete_user_sessions write
others_cleared = refl

abbrev member_auth : AuthUser
member_auth = record { user_id = 3; email = codes "m@x.io"; tenant_id = 7; role = member }

still_valid : (validate_session env (900 ∷ []) other_world).0 ≡ ok (some member_auth)
unfolding verify_magic_link redeem sign_in enter is_root_admin get_magic_link_token
    mark_magic_link_used reset_magic_link_send_attempts get_user_by_email ◌>>=◌ fetch write tick
    raise now hash_token or_raise pure continue select_one update_rows delete_rows text_eq
    eq_ignore_ascii_case to_ascii_lowercase lower_char token_is_valid sign_in_user
    resolve_or_create_user get_or_create_user update_or_create update_existing_user
    update_user_last_login set_user_email_verified get_user_by_id resolve_session_tenant
    get_user_orgs select_all first_tenant create_user_session generate_token draw_token
    create_session write_if exists_row UserStatus.parse UserRole.parse
    canonicalize_email_for_rate_limit trim trim_start is_whitespace sign_out_all
    delete_user_sessions validate_session validate_found get_session session_is_expired authenticate
    get_org_membership ignore touch_session
still_valid = refl

sign_out_all-validate_session_example : member_auth.user_id ≢ 2
sign_out_all-validate_session_example =
    sign_out_all-validate_session env 2 signed_world other_world others_cleared (900 ∷ [])
      member_auth still_valid

remove_member_correct_example :
    (((remove_member env 7 3 admin_user world).0 ≡ ok tt) ↔ MayRemove world.db 7 3 admin_user)
    × ((remove_member env 7 3 admin_user world).0 ≡ ok tt
        → (remove_member env 7 3 admin_user world).1.db ≡ without_member 7 3 1001 world.db)
    × ((x : Failure)
        → (remove_member env 7 3 admin_user world).0 ≡ err x
        → (remove_member env 7 3 admin_user world).1.db ≡ world.db)
remove_member_correct_example = remove_member_correct env 7 3 admin_user world (λ n. refl)

IsOwner-of_world : IsOwner 7 1 world.db
unfolding select_one UserRole.parse text_eq
IsOwner-of_world = (
  record { tenant_id = 7; user_id = 1; role = owner; joined_at = 1; invited_by = none },
  refl,
  refl,
)

remove_member-keeps_IsOwner_example : IsOwner 7 1 (remove_member env 7 3 admin_user world).1.db
remove_member-keeps_IsOwner_example =
    remove_member-keeps_IsOwner env 7 3 7 1 admin_user world IsOwner-of_world

link_found :
    select_one
      (is_token (hash_token env (codes "link")))
      (world_with (codes "n@x.io")).magic_link_tokens
    ≡ some (link (codes "n@x.io"))
unfolding select_one hash_token text_eq
link_found = refl

not_root : eq_ignore_ascii_case config.root_admin_email (codes "n@x.io") ≡ false
unfolding eq_ignore_ascii_case to_ascii_lowercase lower_char text_eq
not_root = refl

nobody : select_one (has_email (codes "n@x.io")) (world_with (codes "n@x.io")).users ≡ none
unfolding select_one text_eq
nobody = refl

abbrev stranger : World
stranger = world_with (codes "n@x.io")

verify_magic_link-restricted_example :
    ((r : Text × User × ℕ)
      → (verify_magic_link env config (codes "link") none none 7 stranger).0 ≢ ok r)
    × ((verify_magic_link env config (codes "link") none none 7 stranger).1.users ≡ stranger.users)
    × ((verify_magic_link env config (codes "link") none none 7 stranger).1.sessions
        ≡ stranger.sessions)
    × ((verify_magic_link env config (codes "link") none none 7 stranger).1.org_memberships
        ≡ stranger.org_memberships)
    × ((verify_magic_link env config (codes "link") none none 7 stranger).1.tenants
        ≡ stranger.tenants)
verify_magic_link-restricted_example =
    verify_magic_link-restricted env config (codes "link") none none 7 stranger
      (link (codes "n@x.io")) refl link_found not_root nobody

invite_done : (invite_user env config invite_request world).0 ≡ ok tt
unfolding invite_user generate_token create_invitation ◌>>=◌ write_if tick draw_token pure now raise
    send hash_token can_invite exists_row text_eq
invite_done = refl

invite_user-invites_example :
    ((admin ≡ owner) ⊎ (admin ≡ admin))
    × (token : Text) × ((invite_user env config invite_request world).1.outbox
        ≡ invitation (codes "n@x.io") (codes "x") (codes "a@x.io") token ∷ [])
    × (row : InvitationRow) × (select_one
          (is_invitation (hash_token env token))
          (invite_user env config invite_request world).1.org_invitations
        ≡ some row)
    × ((to_invitation row).tenant_id ≡ 7)
    × ((to_invitation row).email ≡ codes "n@x.io")
    × ((to_invitation row).role ≡ admin)
    × ((time : ℕ)
        → time ≤ 1000 + 7 * 86400 * 1_000_000_000
        → invitation_is_valid (to_invitation row) time ≡ true)
invite_user-invites_example = invite_user-invites env config invite_request world invite_done

letters_to-request_all_example :
    0
      + letters_to
          (codes "m@x.io")
          (request_all env config world
            (codes "m@x.io" ∷ codes " M@x.io" ∷ codes "a@x.io" ∷ codes "m@x.io" ∷ [])).outbox
    ≤ max 1 10 + letters_to (codes "m@x.io") []
unfolding select_one
letters_to-request_all_example =
    letters_to-request_all env config (codes "m@x.io") world
      (codes "m@x.io" ∷ codes " M@x.io" ∷ codes "a@x.io" ∷ codes "m@x.io" ∷ []) tt
