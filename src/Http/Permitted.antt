-- ===== src/Http/Permitted.antt =====
-- Who may change the capacity of the index, and that the change takes effect.
use lala_search.Prelude.{
  ◌≡◌, refl, sym, ap, ◌∙◌, subst, ◌⊎◌, inl, inr, Bool, true, Option, none, some, ==_iff, &&-eq-true,
}
use lala_search.Prelude.Text.{Text}
use lala_search.Prelude.Integers.{ℤ, in_i64, is_positive, int_to_string}
use lala_search.Prelude.Integers.Decimal.{parse_i64-int_to_string}
use lala_search.Models.Auth.{AuthUser}
use lala_search.Models.UserRole.{UserRole, owner, admin, member, role_eq}
use lala_search.Models.History.{Snapshot, edit, setting}
use lala_search.World.{Database, World, Env, ok}
use lala_search.World.Keeps.{Keeps, Keeps-end, Keeps-attempt, keeps_rules}
use lala_search.World.Success.{bind-eq-ok, as_status-eq-ok, if-raise-eq-ok, pure-eq-ok}
use lala_search.Crawl.Queue.{DbClient}
use lala_search.Crawl.Switch.{setting-set_setting}
use lala_search.Crawl.Discovered.{capacity_in, read_capacity, get_index_usage_bytes-eq-ok}
use lala_search.Site.Capacity.{index_capacity_setting_key, set_index_capacity_bytes}
use lala_search.Site.History.{insert_action, record_action}
use lala_search.Http.Access.{AppState, TenantAccess, is_owner, may_edit, can_edit_index_capacity}
use lala_search.Http.Settings.{IndexCapacityResponse, change_index_capacity, set_index_capacity}

is_owner-eq-true : (role : Option UserRole) → is_owner role ≡ true → role ≡ some owner
unfolding is_owner role_eq
is_owner-eq-true none h = cc
is_owner-eq-true (some owner) h = refl
is_owner-eq-true (some admin) h = cc
is_owner-eq-true (some member) h = cc

may_edit-eq-true :
    (user : Option AuthUser) (role : Option UserRole) (is_default : Bool)
    → may_edit user role is_default ≡ true
    → (is_default ≡ true) × ((user ≡ none) ⊎ (role ≡ some owner))
unfolding may_edit
may_edit-eq-true none role is_default h = (h, inl refl)
may_edit-eq-true (some user) role is_default h =
    let (default, owns) = &&-eq-true is_default (is_owner role) h in
    (default, inr (is_owner-eq-true role owns))

module _ (e : Env) (db : DbClient) (n : ℤ) where
  abbrev IsInForce : Database → Type 0
  IsInForce d = capacity_in db d ≡ some n

  set-IsInForce :
      (w w₁ : World)
      → in_i64 n ≡ true
      → set_index_capacity_bytes e db n w ≡ (ok tt, w₁)
      → IsInForce w₁.db
  unfolding set_index_capacity_bytes
  set-IsInForce w w₁ fits h =
      let (_, stored) = if-raise-eq-ok (is_positive n) _ _ w h in
      ap (λ (o : Option Text). read_capacity o db.tenant_index_capacity_bytes)
        (setting-set_setting e db index_capacity_setting_key (int_to_string n) w w₁ stored)
      ∙ parse_i64-int_to_string n fits

  record-Keeps :
      (before after : Option Snapshot) (description : Text)
      → Keeps IsInForce (
          record_action e db setting edit index_capacity_setting_key none before after description
            none)
  unfolding record_action insert_action
  record-Keeps before after description = search keeps_rules depth 14

  change-IsInForce :
      (w : World) {r : IndexCapacityResponse} {w' : World}
      → in_i64 n ≡ true
      → change_index_capacity e db n w ≡ (ok r, w')
      → IsInForce w'.db
  unfolding change_index_capacity
  change-IsInForce w {r} {w'} fits h =
      let (old, w₁, read, h₁) = bind-eq-ok _ _ w h in
      let (_, w₂, changed, h₂) = bind-eq-ok _ _ w₁ h₁ in
      let set =
        set-IsInForce w₁ w₂ fits
          (as_status-eq-ok 500 (set_index_capacity_bytes e db n) w₁ changed) in
      let (recorded, w₃, logged, h₃) = bind-eq-ok _ _ w₂ h₂ in
      let kept = Keeps-end {P = IsInForce} _ w₂ (Keeps-attempt _ (record-Keeps _ _ _)) logged set in
      let (usage, w₄, asked, h₄) = bind-eq-ok _ _ w₃ h₃ in
      let (_, same) = get_index_usage_bytes-eq-ok e db w₃ (as_status-eq-ok 500 _ w₃ asked) in
      let (_, at) = pure-eq-ok _ w₄ h₄ in
      subst IsInForce (sym (ap (λ (v : World). v.db) at ∙ same)) kept

  module _ (state : AppState) (access : TenantAccess) where
    -- A change of the capacity that succeeds was asked for in the default tenant, by its owner or
    -- where nobody signs in; the number is positive, and is the capacity from then on.
    pub set_index_capacity-permitted :
        (w w' : World) (r : IndexCapacityResponse)
        → in_i64 n ≡ true
        → set_index_capacity e db access state n w ≡ (ok r, w')
        → (access.tenant_id ≡ state.default_tenant_id)
          × ((access.user ≡ none) ⊎ (access.role ≡ some owner))
          × (is_positive n ≡ true)
          × (capacity_in db w'.db ≡ some n)
    unfolding set_index_capacity can_edit_index_capacity
    set_index_capacity-permitted w w' r fits h =
        let (may, asked) = if-raise-eq-ok (can_edit_index_capacity access state) _ _ w h in
        let (positive, done) = if-raise-eq-ok (is_positive n) _ _ w asked in
        let (default, owns) = may_edit-eq-true access.user access.role _ may in
        (
          (==_iff access.tenant_id state.default_tenant_id).0 default,
          owns,
          positive,
          change-IsInForce w fits done,
        )
