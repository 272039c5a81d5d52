-- ===== src/AuthService/Enrolment.antt =====
-- What a sign-in and an accepted invitation leave in the database.
use lala_search.Prelude.{
  ℕ, ◌+◌, suc, ◌≡◌, refl, ap, true, false, not, Option, some, [], ◌∷◌, ◌++◌, arith, is_none, ◌&&◌,
}
use lala_search.Prelude.Text.{Text, text_eq_refl}
use lala_search.Prelude.Table.{select_one, exists_row}
use lala_search.Prelude.Table.Laws.{select_one-added}
use lala_search.Models.UserRole.{UserRole, parse-as_str}
use lala_search.Models.Auth.{
  User, Session, OrgMembership, OrgInvitation, MagicLinkToken, token_is_valid, invitation_is_valid,
}
use lala_search.Models.Rows.{InvitationRow}
use lala_search.World.{Database, World, Env, tick, ok, ◌>>=◌, now, pure, write_if, draw_token}
use lala_search.World.Success.{bind-eq-ok, if_raise-eq-ok, pure-eq-ok, write_if-eq-ok}
use lala_search.AuthDb.Sessions.{is_session, new_session, create_session}
use lala_search.AuthDb.MagicLinks.{is_token}
use lala_search.AuthDb.Organizations.{
  to_membership, to_invitation, is_invitation, new_membership, add_org_membership,
}
use lala_search.AuthDb.Upsert.{select_one-upsert_membership}
use lala_search.AuthService.Config.{AuthConfig, days, hash_token, generate_token}
use lala_search.AuthService.Sessions.{create_user_session}
use lala_search.AuthService.Members.{enroll, join, accept_invitation}
use lala_search.AuthService.SignIn.{is_root_admin, enter, sign_in, redeem, verify_magic_link}
use lala_search.AuthService.SingleUse.{verify-Verified}
use lala_search.AuthService.AcceptOnce.{accept-Admitted}
use lala_search.AuthService.Removal.{membership_in}

-- The database holds a session of this token, of this user and tenant.
pub record HasSession (e : Env) (token : Text) (user_id tenant_id : ℕ) (d : Database) : Type 0 where
  pub session : Session
  pub stored : select_one (is_session (hash_token e token)) d.sessions ≡ some session
  pub for_user : session.user_id ≡ user_id
  pub in_tenant : session.tenant_id ≡ tenant_id

module _ (e : Env) (config : AuthConfig) (user_id tenant_id : ℕ) (agent ip : Option Text) where
  -- The row that is stored.
  abbrev created_session : World → Session
  created_session w =
      new_session
        (record {
          session_id_hash = hash_token e (e.random_hex w.tokens_drawn);
          user_id = user_id;
          tenant_id = tenant_id;
          expires_at = e.clock w.steps + days config.session_max_age_days;
          user_agent = agent;
          ip_address = ip;
        })
        (e.clock w.steps)

  created_absent :
      (w : World) {s : Text} {w' : World}
      → create_user_session e config user_id tenant_id agent ip w ≡ (ok s, w')
      → (s ≡ e.random_hex w.tokens_drawn)
        × (exists_row (is_session (hash_token e (e.random_hex w.tokens_drawn))) w.sessions ≡ false)
        × (w'.db ≡ record (w.db) { sessions = w.sessions ++ created_session w ∷ [] })
  unfolding create_user_session generate_token create_session ◌>>=◌ write_if tick draw_token pure
      now hash_token
  created_absent w created = (ground arith, ground arith, ground arith)

  -- A session that was created is found by its token, and the memberships are as they were.
  pub create_user_session-HasSession :
      (w : World) {s : Text} {w' : World}
      → create_user_session e config user_id tenant_id agent ip w ≡ (ok s, w')
      → HasSession e s user_id tenant_id w'.db × (w'.org_memberships ≡ w.org_memberships)
  create_user_session-HasSession w created =
      let (named, absent, written) = created_absent w created in
      let h = hash_token e (e.random_hex w.tokens_drawn) in
      (
        record {
          session = created_session w;
          stored =
              rw (named, written)
                (select_one-added (is_session h) w.sessions (created_session w) absent
                  (text_eq_refl h));
          for_user = refl;
          in_tenant = refl;
        },
        ap (λ (d : Database). d.org_memberships) written,
      )

-- The user is an active member of the tenant, in this role.
abbrev pub HasRole : ℕ → ℕ → UserRole → Database → Type 0
HasRole t u role d = (m : OrgMembership) × (membership_in d t u ≡ some m) × (m.role ≡ role)

-- What an accepted invitation leaves: the membership in the invitation's role, and a session.
pub record IsEnrolled (e : Env) (i : OrgInvitation) (r : Text × User × ℕ) (d : Database)
    : Type 0 where
  pub in_tenant : r.2 ≡ i.tenant_id
  pub role : HasRole i.tenant_id r.1.user_id i.role d
  pub session : HasSession e r.0 r.1.user_id r.2 d

module _ (e : Env) (config : AuthConfig) (agent ip : Option Text) where
  add_org_membership-HasRole :
      (t u : ℕ) (role : UserRole) (by : Option ℕ) (w : World) {v : Unit {0}} {w' : World}
      → add_org_membership e t u role by w ≡ (ok v, w')
      → HasRole t u role w'.db
  unfolding add_org_membership
  add_org_membership-HasRole t u role by w added =
      let n = new_membership t u role by (e.clock w.steps) in
      let written = (write_if-eq-ok e _ _ w added).1 in
      (
        to_membership n,
        rw (written, select_one-upsert_membership t u role by (e.clock w.steps) w.org_memberships)
            refl,
        rw (parse-as_str role) refl,
      )

  -- The last two actions of a sign-in: a session is created, and its token is returned.
  pub hand_over-HasSession :
      (u : User) (t : ℕ) (w : World) {r : Text × User × ℕ} {w' : World}
      → (create_user_session e config u.user_id t agent ip >>= λ s. pure (s, u, t)) w ≡ (ok r, w')
      → HasSession e r.0 r.1.user_id r.2 w'.db
        × (w'.org_memberships ≡ w.org_memberships)
        × (r.1 ≡ u)
        × (r.2 ≡ t)
  hand_over-HasSession u t w ended =
      let (s, w₁, created, rest) = bind-eq-ok _ _ w ended in
      let (is, at) = pure-eq-ok (s, u, t) w₁ rest in
      let (session, same) =
        create_user_session-HasSession e config u.user_id t agent ip w created in
      rw (is, at) (session, same, refl, refl)

  settle-IsEnrolled :
      (i : OrgInvitation) (u : User) (w : World) {r : Text × User × ℕ} {w' : World}
      → HasRole i.tenant_id u.user_id i.role w.db
      → (create_user_session e config u.user_id i.tenant_id agent ip >>= λ s.
            pure (s, u, i.tenant_id))
          w
        ≡ (ok r, w')
      → IsEnrolled e i r w'.db
  settle-IsEnrolled i u w (m, held, ranked) settled =
      let (session, same, who, there) = hand_over-HasSession u i.tenant_id w settled in
      record { in_tenant = there; role = (m, rw (same, who) held, ranked); session = session }

  enroll-IsEnrolled :
      (i : OrgInvitation) (w : World) {r : Text × User × ℕ} {w' : World}
      → enroll e config i agent ip w ≡ (ok r, w')
      → IsEnrolled e i r w'.db
  unfolding enroll
  enroll-IsEnrolled i w enrolled =
      let (u, w₁, _, s₁) = bind-eq-ok _ _ w enrolled in
      let (_, w₂, added, s₂) = bind-eq-ok _ _ w₁ s₁ in
      settle-IsEnrolled i u w₂ (add_org_membership-HasRole i.tenant_id u.user_id i.role _ w₁ added)
        s₂

-- When an invitation is accepted, it is one that the database held under the token's digest, that
-- nobody had accepted and that had not expired; the user that is returned is then an active
-- member of its tenant in the role of the invitation, whatever role that user had before, and the
-- token that is returned is a session of that user and that tenant.
pub accept_invitation-IsEnrolled :
    (e : Env) (config : AuthConfig) (token : Text) (agent ip : Option Text) (w : World)
    (r : Text × User × ℕ) (w' : World)
    → accept_invitation e config token agent ip w ≡ (ok r, w')
    → (row : InvitationRow) × (select_one (is_invitation (hash_token e token)) w.org_invitations
        ≡ some row)
      × (invitation_is_valid (to_invitation row) (e.clock (suc w.steps)) ≡ true)
      × IsEnrolled e (to_invitation row) r w'.db
unfolding join tick
accept_invitation-IsEnrolled e config token agent ip w r w' accepted =
    let a = accept-Admitted e config token agent ip w accepted in
    let (_, w₁, _, rest) = bind-eq-ok _ _ (tick w) a.joined in
    (
      a.invite,
      a.found,
      a.valid,
      enroll-IsEnrolled e config agent ip (to_invitation a.invite) w₁ rest,
    )

module _ (e : Env) (config : AuthConfig) (agent ip : Option Text) (default : ℕ) where
  enter-HasSession :
      (t : MagicLinkToken) (o : Option User) (w : World) {r : Text × User × ℕ} {w' : World}
      → enter e config t agent ip default o w ≡ (ok r, w')
      → HasSession e r.0 r.1.user_id r.2 w'.db
  unfolding enter
  enter-HasSession t o w entered =
      let (_, open_to) =
        if_raise-eq-ok (is_none o && not (is_root_admin e config t) && not config.multi_tenant) _ _
          w entered in
      let (u, w₁, _, s₁) = bind-eq-ok _ _ w open_to in
      let (i, w₂, _, s₂) = bind-eq-ok _ _ w₁ s₁ in
      (hand_over-HasSession e config agent ip u i w₂ s₂).0

  redeem-HasSession :
      (h : Text) (t : MagicLinkToken) (w : World) {r : Text × User × ℕ} {w' : World}
      → redeem e config h t agent ip default w ≡ (ok r, w')
      → HasSession e r.0 r.1.user_id r.2 w'.db
  unfolding redeem sign_in
  redeem-HasSession h t w redeemed =
      let (_, w₁, _, s₁) = bind-eq-ok _ _ w redeemed in
      let (_, w₂, _, s₂) = bind-eq-ok _ _ w₁ s₁ in
      let (o, w₃, _, s₃) = bind-eq-ok _ _ w₂ s₂ in enter-HasSession t o w₃ s₃

-- When `verify_magic_link` succeeds, the database held a token of this digest that was unused and
-- had not expired, and the session token that is returned is the token of a session that the
-- database now holds, of the user and the tenant that are returned with it.
pub verify_magic_link-HasSession :
    (e : Env) (config : AuthConfig) (token : Text) (agent ip : Option Text) (default : ℕ)
    (w : World) (r : Text × User × ℕ) (w' : World)
    → verify_magic_link e config token agent ip default w ≡ (ok r, w')
    → (t : MagicLinkToken) × (select_one (is_token (hash_token e token)) w.magic_link_tokens
        ≡ some t)
      × (token_is_valid t (e.clock (suc w.steps)) ≡ true)
      × HasSession e r.0 r.1.user_id r.2 w'.db
unfolding tick
verify_magic_link-HasSession e config token agent ip default w r w' verified =
    let v = verify-Verified e config token agent ip default w verified in
    (
      v.magic_token,
      v.found,
      v.valid,
      redeem-HasSession e config agent ip default (hash_token e token) v.magic_token (tick w)
          v.redeemed,
    )
