-- ===== src/AuthDb/Organizations.antt =====
-- lala-agent/src/services/auth_db.rs: memberships and invitations.
use mathlib.Core.Option
use lala_search.Prelude.{
  ℕ, Bool, true, false, not, ◌&&◌, Option, none, some, unwrap_or, is_none, List, [], ◌∷◌, ◌++◌, map,
  ◌==◌, if◌then◌else◌,
}
use lala_search.Prelude.Text.{Text, text_eq}
use lala_search.Prelude.Table.{select_one, select_all, exists_row, update_rows, delete_rows}
use lala_search.Models.UserRole
use lala_search.Models.UserRole.{UserRole, member}
use lala_search.Models.Auth.{OrgMembership, OrgInvitation}
use lala_search.Models.Rows.{MembershipRow, InvitationRow}
use lala_search.World.{Database, Env, M, fetch, write, write_if}
use lala_search.AuthDb.Users.{user_exists, tenant_exists}

pub record CreateInvitationParams : Type 0 where
  pub token_hash : Text
  pub tenant_id : ℕ
  pub email : Text
  pub role : UserRole
  pub invited_by : ℕ
  pub expires_at : ℕ

-- The structs that rows are read as: a role that does not parse is read as a member's.
abbrev pub to_membership : MembershipRow → OrgMembership
to_membership r = record {
  tenant_id = r.tenant_id;
  user_id = r.user_id;
  role = unwrap_or (UserRole.parse r.role) member;
  joined_at = r.joined_at;
  invited_by = r.invited_by;
}

abbrev pub to_invitation : InvitationRow → OrgInvitation
to_invitation r = record {
  token = r.token_hash;
  tenant_id = r.tenant_id;
  email = r.email;
  role = unwrap_or (UserRole.parse r.role) member;
  invited_by = r.invited_by;
  created_at = r.created_at;
  expires_at = r.expires_at;
  accepted = r.accepted;
}

-- WHERE tenant_id = … AND user_id = …
abbrev pub is_of : ℕ → ℕ → MembershipRow → Bool
is_of tenant_id user_id r = (r.tenant_id == tenant_id) && (r.user_id == user_id)

abbrev pub is_active_of : ℕ → ℕ → MembershipRow → Bool
is_active_of tenant_id user_id r = is_of tenant_id user_id r && is_none r.deleted_at

abbrev pub new_membership : ℕ → ℕ → UserRole → Option ℕ → ℕ → MembershipRow
new_membership tenant_id user_id role invited_by t = record {
  tenant_id = tenant_id;
  user_id = user_id;
  role = UserRole.as_str role;
  joined_at = t;
  invited_by = invited_by;
  deleted_at = none;
}

-- INSERT … ON CONFLICT (tenant_id, user_id) DO UPDATE: all columns but the key are replaced.
unfoldable pub upsert_membership : MembershipRow → List MembershipRow → List MembershipRow
upsert_membership r [] = r ∷ []
upsert_membership r (s ∷ rows) =
    if is_of r.tenant_id r.user_id s then r ∷ rows else s ∷ upsert_membership r rows

abbrev pub optional_user_exists : Option ℕ → Database → Bool
optional_user_exists none d = true
optional_user_exists (some user_id) d = user_exists user_id d

abbrev pub is_invitation : Text → InvitationRow → Bool
is_invitation token_hash r = text_eq r.token_hash token_hash

abbrev pub new_invitation : CreateInvitationParams → ℕ → InvitationRow
new_invitation p t = record {
  token_hash = p.token_hash;
  tenant_id = p.tenant_id;
  email = p.email;
  role = UserRole.as_str p.role;
  invited_by = p.invited_by;
  created_at = t;
  expires_at = p.expires_at;
  accepted = false;
}

module _ (e : Env) where
  unfoldable pub add_org_membership : ℕ → ℕ → UserRole → Option ℕ → M (Unit {0})
  add_org_membership tenant_id user_id role invited_by =
      write_if e
        (λ d.
          tenant_exists tenant_id d && user_exists user_id d && optional_user_exists invited_by d)
        (λ t d. record d {
          org_memberships =
              upsert_membership (new_membership tenant_id user_id role invited_by t)
                d.org_memberships;
        })

  unfoldable pub get_org_membership : ℕ → ℕ → M (Option OrgMembership)
  get_org_membership tenant_id user_id = fetch e (λ d.
      Option.map to_membership (select_one (is_active_of tenant_id user_id) d.org_memberships))

  unfoldable pub get_user_orgs : ℕ → M (List OrgMembership)
  get_user_orgs user_id = fetch e (λ d. map to_membership (
      select_all (λ (r : MembershipRow). (r.user_id == user_id) && is_none r.deleted_at)
        d.org_memberships))

  unfoldable pub get_org_members : ℕ → M (List OrgMembership)
  get_org_members tenant_id = fetch e (λ d. map to_membership (
      select_all (λ (r : MembershipRow). (r.tenant_id == tenant_id) && is_none r.deleted_at)
        d.org_memberships))

  unfoldable pub remove_org_membership : ℕ → ℕ → M (Unit {0})
  remove_org_membership tenant_id user_id = write e (λ t d. record d {
    org_memberships =
        update_rows (is_active_of tenant_id user_id) (λ r. record r { deleted_at = some t })
          d.org_memberships;
  })

  unfoldable pub hard_delete_org_membership : ℕ → ℕ → M (Unit {0})
  hard_delete_org_membership tenant_id user_id = write e (λ t d. record d {
    org_memberships = delete_rows (is_of tenant_id user_id) d.org_memberships;
  })

  unfoldable pub create_invitation : CreateInvitationParams → M (Unit {0})
  create_invitation p =
      write_if e
        (λ d.
          not (exists_row (is_invitation p.token_hash) d.org_invitations)
          && tenant_exists p.tenant_id d
          && user_exists p.invited_by d)
        (λ t d. record d { org_invitations = d.org_invitations ++ new_invitation p t ∷ [] })

  unfoldable pub get_invitation : Text → M (Option OrgInvitation)
  get_invitation token_hash =
      fetch e
        (λ d. Option.map to_invitation (select_one (is_invitation token_hash) d.org_invitations))

  unfoldable pub mark_invitation_accepted : Text → M (Unit {0})
  mark_invitation_accepted token_hash = write e (λ t d. record d {
    org_invitations =
        update_rows (is_invitation token_hash) (λ r. record r { accepted = true })
          d.org_invitations;
  })
