-- ===== src/Http/Guarded.antt =====
-- Whose database a request that passes works on, and who may change the capacity.
use lala_search.Prelude.{
  ℕ, ◌≡◌, refl, sym, ap, subst, ◌∙◌, ◌⊎◌, inl, inr, true, not, Option, none, some, List, ◌==◌,
  ==_iff, Bool-cases, if◌then◌else◌,
}
use mathlib.Core.Option
use lala_search.Prelude.Text.{Text, codes}
use lala_search.Prelude.Table.{select_one}
use lala_search.Models.Auth.{AuthUser, OrgMembership}
use lala_search.Models.Rows.{MembershipRow}
use lala_search.World.{Database, World, Env, ok, pure, tick, ◌>>=◌}
use lala_search.World.Success.{bind-eq-ok, pure-eq-ok, or_raise-eq-ok, as_status-eq-ok, fetch-eq-ok}
use lala_search.AuthDb.Organizations.{is_active_of, to_membership, get_org_membership}
use lala_search.AuthService.Sessions.{validate_session, check_membership}
use lala_search.Crawl.Queue.{DbClient}
use lala_search.Site.Tenants.{with_tenant}
use lala_search.Http.Access.{
  DeploymentMode, single_tenant, multi_tenant, AppState, Request, validate_request, member_of,
  resolve_requested, resolve_raw, resolve_tenant_override, resolve_multi_tenant_db, validated_db,
  tenant_db, cookie_named,
}

-- At `w` the cookie of the request stands for the user.
pub record IsSignedIn (e : Env) (request : Request) (w : World) (user : AuthUser) : Type 0 where
  pub cookies : List (Text × Text)
  pub readable : request.cookies ≡ some cookies
  pub token : Text
  pub named : cookie_named (codes "lala_session") cookies ≡ some token
  pub after : World
  pub valid : validate_session e token w ≡ (ok (some user), after)

-- The tenant is the one of the user's session, or the user is an active member of it.
abbrev pub MayUse : AuthUser → ℕ → Database → Type 0
MayUse user tenant_id d =
    (tenant_id ≡ user.tenant_id)
    ⊎ ((m : MembershipRow) × (select_one (is_active_of tenant_id user.user_id) d.org_memberships
          ≡ some m))

map-eq-some :
    {A B : Type 0}
    → (f : A → B) (o : Option A) {b : B} → Option.map f o ≡ some b
    → (a : A) × (o ≡ some a)
map-eq-some f none h = cc
map-eq-some f (some a) h = (a, refl)

module _ (parse_uuid : Text → Option ℕ) (e : Env) (state : AppState) (request : Request) where
  validate_request-IsSignedIn :
      (w : World) {user : AuthUser} {w' : World}
      → validate_request parse_uuid e state request w ≡ (ok user, w')
      → IsSignedIn e request w user
  unfolding validate_request
  validate_request-IsSignedIn w {user} {w'} h =
      let (_, w₁, enabled, h₁) = bind-eq-ok _ _ w h in
      let (_, at₁) = or_raise-eq-ok _ _ w enabled in
      let (cookies, w₂, read, h₂) = bind-eq-ok _ _ w₁ h₁ in
      let (readable, at₂) = or_raise-eq-ok _ _ w₁ read in
      let (token, w₃, found, h₃) = bind-eq-ok _ _ w₂ h₂ in
      let (named, at₃) = or_raise-eq-ok _ _ w₂ found in
      let (answer, w₄, validated, h₄) = bind-eq-ok _ _ w₃ h₃ in
      let (is_user, _) = or_raise-eq-ok _ _ w₄ h₄ in
      let valid = as_status-eq-ok 500 (validate_session e token) w₃ validated in
      record {
        cookies = cookies;
        readable = readable;
        token = token;
        named = named;
        after = w₄;
        valid =
            subst (λ (v : World). validate_session e token v ≡ (ok (some user), w₄))
              (at₃ ∙ at₂ ∙ at₁)
              (subst (λ (o : Option AuthUser). validate_session e token w₃ ≡ (ok o, w₄)) is_user
                valid);
      }

  member_of-found :
      (tenant_id user_id : ℕ) (w : World) {m : OrgMembership} {w' : World}
      → member_of parse_uuid e state request tenant_id user_id w ≡ (ok m, w')
      → (r : MembershipRow) × (select_one (is_active_of tenant_id user_id) w'.org_memberships
          ≡ some r)
  unfolding member_of check_membership get_org_membership tick
  member_of-found tenant_id user_id w {m} {w'} h =
      let (found, w₁, looked, rest) = bind-eq-ok _ _ w h in
      let (is, at) = or_raise-eq-ok _ _ w₁ rest in
      let (named, at₁) = fetch-eq-ok e _ w (as_status-eq-ok 500 _ w looked) in
      let (r, row) = map-eq-some to_membership _ (sym named ∙ is) in
      (
        r,
        subst
            (λ (v : World). select_one (is_active_of tenant_id user_id) v.org_memberships ≡ some r)
            (sym (at ∙ at₁)) row,
      )

  resolve_requested-MayUse :
      (user : AuthUser) (requested_id : ℕ) (w : World) {t : ℕ} {w' : World}
      → resolve_requested parse_uuid e state request user requested_id w ≡ (ok t, w')
      → MayUse user t w'.db
  unfolding resolve_requested
  resolve_requested-MayUse user requested_id w {t} {w'} h =
      elim (Bool-cases (requested_id == user.tenant_id)) [
        | inl same ↦
            let own : pure requested_id w ≡ (ok t, w') =
              subst
                (λ b.
                  (if b
                      then pure requested_id
                      else (member_of parse_uuid e state request requested_id user.user_id >>= λ _.
                          pure requested_id))
                    w
                  ≡ (ok t, w'))
                same h in
            inl ((pure-eq-ok _ w own).0 ∙ (==_iff requested_id user.tenant_id).0 same)
        | inr other ↦
            let asked =
              subst
                (λ b.
                  (if b
                      then pure requested_id
                      else (member_of parse_uuid e state request requested_id user.user_id >>= λ _.
                          pure requested_id))
                    w
                  ≡ (ok t, w'))
                other h in
            let (m, w₁, found, rest) =
              bind-eq-ok (member_of parse_uuid e state request requested_id user.user_id) _ w
                asked in
            let (named, at) = pure-eq-ok requested_id w₁ rest in
            let (r, row) = member_of-found requested_id user.user_id w found in
            inr (
              r,
              subst
                  (λ (v : World).
                    select_one (is_active_of t user.user_id) v.org_memberships ≡ some r)
                  (sym at)
                  (subst (λ i. select_one (is_active_of i user.user_id) w₁.org_memberships ≡ some r)
                    (sym named) row),
            )
      ]

  resolve-MayUse :
      (user : AuthUser) (raw : Option Text) (w : World) {t : ℕ} {w' : World}
      → resolve_raw parse_uuid e state request user raw w ≡ (ok t, w')
      → MayUse user t w'.db
  unfolding resolve_raw
  resolve-MayUse user none w h = inl (pure-eq-ok _ w h).0
  resolve-MayUse user (some raw) w h =
      let (requested_id, w₁, parsed, rest) = bind-eq-ok _ _ w h in
      resolve_requested-MayUse user requested_id w₁ rest

  -- The client of a request: in single-tenant mode the base client, else one for a tenant that the
  -- user may use
  abbrev pub IsScoped : DeploymentMode → AuthUser → DbClient → Database → Type 0
  IsScoped single_tenant user client d = client ≡ state.db_client
  IsScoped multi_tenant user client d = MayUse user client.tenant_id d

  validated-IsScoped :
      (mode : DeploymentMode) (w : World) {client : DbClient} {w' : World}
      → validated_db parse_uuid e state request mode w ≡ (ok client, w')
      → (user : AuthUser) × IsSignedIn e request w user × IsScoped mode user client w'.db
  unfolding validated_db resolve_multi_tenant_db resolve_tenant_override with_tenant
  validated-IsScoped single_tenant w h =
      let (user, w₁, validated, rest) = bind-eq-ok _ _ w h in
      (user, validate_request-IsSignedIn w validated, (pure-eq-ok _ w₁ rest).0)
  validated-IsScoped multi_tenant w {client} {w'} h =
      let (user, w₁, validated, h₁) = bind-eq-ok _ _ w h in
      let (t, w₂, resolved, h₂) = bind-eq-ok _ _ w₁ h₁ in
      let (named, at) = pure-eq-ok _ w₂ h₂ in
      (
        user,
        validate_request-IsSignedIn w validated,
        subst (λ (v : World). MayUse user client.tenant_id v.db) (sym at)
            (subst (λ i. MayUse user i w₂.db) (sym (ap (λ (c : DbClient). c.tenant_id) named))
              (resolve-MayUse user _ w₁ resolved)),
      )

  -- While authentication is configured, a request is given a database only if its session cookie
  -- stands for a user; in multi-tenant mode it is then the database of the session's tenant, or of
  -- another one of which the user is an active member.
  pub tenant_db-IsScoped :
      (w : World) (client : DbClient) (w' : World)
      → state.auth_enabled ≡ true
      → tenant_db parse_uuid e state request w ≡ (ok client, w')
      → (user : AuthUser) × IsSignedIn e request w user
        × IsScoped state.deployment_mode user client w'.db
  unfolding tenant_db
  tenant_db-IsScoped w client w' enabled h = validated-IsScoped state.deployment_mode w (
      subst
        (λ b.
          (if not b
              then pure state.db_client
              else validated_db parse_uuid e state request state.deployment_mode)
            w
          ≡ (ok client, w'))
        enabled h)
