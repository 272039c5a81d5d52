-- ===== src/AuthService/Removal.antt =====
-- Who may remove whom from an organization, and that owners stay.
use mathlib.Core.Option
use lala_search.Prelude.{
  ℕ, suc, ◌≡◌, refl, ◌≢◌, ◌⊎◌, ◌↔◌, sym, ◌∙◌, ap, Bool, false, Option, none, some, arith,
  if◌then◌else◌, Option-cases, Bool-cases, inl, inr,
}
use lala_search.Prelude.Table.{select_one, update_rows}
use lala_search.Prelude.Table.Laws.{select_one-update_rows}
use lala_search.Models.UserRole.{owner, admin, role_eq}
use lala_search.Models.Auth.{AuthUser, OrgMembership, can_remove_members}
use lala_search.Models.Rows.{MembershipRow}
use lala_search.World.{Failure, Database, World, Env, Result, tick, ok, err, ◌>>=◌, fetch, write}
use lala_search.AuthDb.Organizations.{
  is_active_of, to_membership, get_org_membership, remove_org_membership,
}
use lala_search.AuthService.Members.{remove_target, remove_member}

-- The membership that the service reads, if the user has an active one.
abbrev pub membership_in : Database → ℕ → ℕ → Option OrgMembership
membership_in d tenant_id user_id =
    Option.map to_membership (select_one (is_active_of tenant_id user_id) d.org_memberships)

-- The table after the membership has been soft-deleted at `t`.
abbrev pub without_member : ℕ → ℕ → ℕ → Database → Database
without_member tenant_id user_id t d = record d {
  org_memberships =
      update_rows (is_active_of tenant_id user_id) (λ r. record r { deleted_at = some t })
        d.org_memberships;
}

-- The rule of removal. It asks for the requester's role and says nothing of the tenant in which
-- the requester has it.
pub record MayRemove (d : Database) (tenant_id user_id : ℕ) (requester : AuthUser) : Type 0 where
  pub manages : (requester.role ≡ owner) ⊎ (requester.role ≡ admin)
  pub another : requester.user_id ≢ user_id
  pub target : OrgMembership
  pub held : membership_in d tenant_id user_id ≡ some target
  pub not_owner : target.role ≢ owner
  pub ranked : (requester.role ≡ owner) ⊎ (target.role ≢ admin)

module _ (e : Env) (tenant_id user_id : ℕ) (requester : AuthUser) (w : World) where
  abbrev answer : Result (Unit {0})
  answer = (remove_member e tenant_id user_id requester w).0

  abbrev database : Database
  database = (remove_member e tenant_id user_id requester w).1.db

  remove_of_MayRemove :
      ((n : ℕ) → e.query_fails n ≡ false)
      → MayRemove w.db tenant_id user_id requester
      → answer ≡ ok tt
  unfolding remove_member can_remove_members get_org_membership remove_target remove_org_membership
      role_eq ◌>>=◌ fetch write tick
  remove_of_MayRemove reliable m = ground (arith, reliable w.steps, reliable (suc w.steps))

  MayRemove-of_remove : answer ≡ ok tt → MayRemove w.db tenant_id user_id requester
  unfolding remove_member can_remove_members get_org_membership remove_target remove_org_membership
      role_eq ◌>>=◌ fetch write tick
  MayRemove-of_remove done = elim (Option-cases (membership_in w.db tenant_id user_id)) [
    | inl missing ↦ absurd (ground (arith, missing))
    | inr (m, found) ↦ record {
      manages = ground arith;
      another = ground arith;
      target = m;
      held = found;
      not_owner = ground (arith, found);
      ranked = ground (arith, found);
    }
  ]

  removed-db :
      answer ≡ ok tt → database ≡ without_member tenant_id user_id (e.clock (suc w.steps)) w.db
  unfolding remove_member can_remove_members get_org_membership remove_target remove_org_membership
      role_eq ◌>>=◌ fetch write tick
  removed-db done = ground arith

  refused-db : (x : Failure) → answer ≡ err x → database ≡ w.db
  unfolding remove_member can_remove_members get_org_membership remove_target remove_org_membership
      role_eq ◌>>=◌ fetch write tick
  refused-db x failed = ground arith

-- While the database answers, `remove_member` succeeds exactly when the rule allows it; then the
-- target's active membership is soft-deleted and nothing else changes, and on every failure
-- nothing changes.
pub remove_member_correct :
    (e : Env) (tenant_id user_id : ℕ) (requester : AuthUser) (w : World)
    → ((n : ℕ) → e.query_fails n ≡ false)
    → (((remove_member e tenant_id user_id requester w).0 ≡ ok tt)
        ↔ MayRemove w.db tenant_id user_id requester)
      × ((remove_member e tenant_id user_id requester w).0 ≡ ok tt
          → (remove_member e tenant_id user_id requester w).1.db
            ≡ without_member tenant_id user_id (e.clock (suc w.steps)) w.db)
      × ((x : Failure)
          → (remove_member e tenant_id user_id requester w).0 ≡ err x
          → (remove_member e tenant_id user_id requester w).1.db ≡ w.db)
remove_member_correct e tenant_id user_id requester w reliable = (
  (
    MayRemove-of_remove e tenant_id user_id requester w,
    remove_of_MayRemove e tenant_id user_id requester w reliable,
  ),
  removed-db e tenant_id user_id requester w,
  refused-db e tenant_id user_id requester w,
)

-- The user is an active owner of the tenant.
abbrev pub IsOwner : ℕ → ℕ → Database → Type 0
IsOwner t u d = (m : OrgMembership) × (membership_in d t u ≡ some m) × (m.role ≡ owner)

-- The columns that a membership is read from are not the one that removal sets.
to_membership-removed :
    (q : MembershipRow → Bool) (time : ℕ) (o : Option MembershipRow)
    → Option.map to_membership
        (Option.map (λ r. if q r then record r { deleted_at = some time } else r) o)
      ≡ Option.map to_membership o
to_membership-removed q time none = refl
to_membership-removed q time (some r) = elim (Bool-cases (q r)) [
  | inl met ↦ rw met refl
  | inr unmet ↦ rw unmet refl
]

membership-without_member :
    (t u t' u' time : ℕ) (d : Database)
    → (t ≡ t' → u ≢ u')
    → membership_in (without_member t u time d) t' u' ≡ membership_in d t' u'
membership-without_member t u t' u' time d other =
    ap (Option.map to_membership) (
      select_one-update_rows (is_active_of t' u') (is_active_of t u)
        (λ r. record r { deleted_at = some time }) (λ r met. ground (arith, met, other))
        d.org_memberships)
    ∙ to_membership-removed (is_active_of t u) time
        (select_one (is_active_of t' u') d.org_memberships)

owner-without_member :
    (e : Env) (t u t' u' : ℕ) (requester : AuthUser) (w : World)
    → IsOwner t' u' w.db
    → MayRemove w.db t u requester
    → t ≡ t'
    → u ≢ u'
owner-without_member e t u t' u' requester w (found, held, owns) m p q =
    let same = sym m.held ∙ (λ i. membership_in w.db (p i) (q i)) ∙ held in
    m.not_owner (ground (arith, same, owns))

-- Whoever asks, whichever member is to be removed and whatever fails, every owner remains one.
pub remove_member-keeps_IsOwner :
    (e : Env) (t u t' u' : ℕ) (requester : AuthUser) (w : World)
    → IsOwner t' u' w.db
    → IsOwner t' u' (remove_member e t u requester w).1.db
remove_member-keeps_IsOwner e t u t' u' requester w h =
    outcome (remove_member e t u requester w).0 refl
  where
    outcome :
        (r : Result (Unit {0}))
        → (remove_member e t u requester w).0 ≡ r
        → IsOwner t' u' (remove_member e t u requester w).1.db
    outcome (err x) failed = rw (refused-db e t u requester w x failed) h
    outcome (ok v) done =
        let m = MayRemove-of_remove e t u requester w done in
        rw (removed-db e t u requester w done) (
          h.0,
          membership-without_member t u t' u' (e.clock (suc w.steps)) w.db
                (owner-without_member e t u t' u' requester w h m)
              ∙ h.1,
          h.2,
        )
