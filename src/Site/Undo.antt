-- ===== src/Site/Undo.antt =====
-- What the success of a rollback says, whatever it took back.
pub mod Once
pub mod Domains
pub mod Edits
use lala_search.Prelude.{
  ℕ, ◌≡◌, refl, ap, sym, subst, ◌∙◌, Bool, true, false, not, Option, none, some, List, [], ◌∷◌,
  ◌++◌, ◌==◌, arith, if◌then◌else◌, is_none, is_some, ◌&&◌, &&-eq-true,
}
use lala_search.Prelude.Text.{Text}
use lala_search.Prelude.Table.{exists_row, update_rows}
use lala_search.Models.History.{
  ActionType, rollback, EntityType, action_text, entity_text, parse_action, parse_entity, Snapshot,
  ActionRecord,
}
use lala_search.World.{
  Database, World, Env, M, ok, pure, raise, or_raise, now, draw_uuid, write_if, ◌>>=◌, panicked,
}
use lala_search.World.Success.{
  bind-eq-ok, write-eq-ok, write_if-eq-ok, or_raise-eq-ok, if_raise-eq-ok, pure-eq-ok,
}
use lala_search.Crawl.Queue.{DbClient}
use lala_search.Site.History.{
  has_action_id, set_action_history, known_if_some, mark_action_rolled_back, insert_action,
  record_action,
}
use lala_search.Site.Rollback.{
  apply_rollback, rollback_found, rollback_action, rollback_states, rollback_description,
}

-- The rows of the history after an action was marked as rolled back at `t`
abbrev pub marked : ℕ → ℕ → List ActionRecord → List ActionRecord
marked action_id t =
    update_rows (λ (r : ActionRecord). has_action_id action_id r && is_none r.rolled_back_at)
      (λ r. record r { rolled_back_at = some t })

is_none_of : {A : Type 0} → (o : Option A) → is_some o ≡ false → o ≡ none
is_none_of none h = refl
is_none_of (some a) h = cc

module _ (e : Env) (client : DbClient) where
  -- What an action that was recorded in `d` is, and what `d` becomes.
  pub record IsRecorded (entity_type : EntityType) (action_type : ActionType) (entity_id : Text)
      (before_state after_state : Option Snapshot) (rollback_of : Option ℕ) (d : Database)
      (r : ActionRecord) (d' : Database) : Type 0 where
    pub entity : r.entity_type ≡ entity_text entity_type
    pub action : r.action_type ≡ action_text action_type
    pub named : r.entity_id ≡ entity_id
    pub before : r.before_state ≡ before_state
    pub after : r.after_state ≡ after_state
    pub undoes : r.rollback_of ≡ rollback_of
    pub unmarked : r.rolled_back_at ≡ none
    pub tenant : r.tenant_id ≡ client.tenant_id
    pub fresh : exists_row (has_action_id r.action_id) d.site.action_history ≡ false
    pub known :
        known_if_some (λ i. exists_row (has_action_id i) d.site.action_history) rollback_of ≡ true
    pub added : d' ≡ set_action_history (λ rows. rows ++ r ∷ []) d

  insert_action-eq-ok :
      (row : ActionRecord) (w : World) {r : ActionRecord} {w' : World}
      → insert_action e row w ≡ (ok r, w')
      → (r ≡ row)
        × (exists_row (has_action_id row.action_id) w.site.action_history ≡ false)
        × (known_if_some (λ i. exists_row (has_action_id i) w.site.action_history) row.rollback_of
            ≡ true)
        × (w'.db ≡ set_action_history (λ rows. rows ++ row ∷ []) w.db)
  unfolding insert_action
  insert_action-eq-ok row w h =
      let (_, w₁, done, rest) = bind-eq-ok _ _ w h in
      let (allowed, written) = write_if-eq-ok e _ _ w done in
      let (named, same) = pure-eq-ok row w₁ rest in
      (
        named,
        ground (arith, allowed),
        ground (arith, allowed),
        (ap (λ (v : World). v.db) same ∙ written),
      )

  pub record_action-IsRecorded :
      (entity_type : EntityType) (action_type : ActionType) (entity_id : Text)
      (performed_by : Option ℕ) (before_state after_state : Option Snapshot) (description : Text)
      (rollback_of : Option ℕ) (w : World) {r : ActionRecord} {w' : World}
      → record_action e client entity_type action_type entity_id performed_by before_state
          after_state description rollback_of w
        ≡ (ok r, w')
      → IsRecorded entity_type action_type entity_id before_state after_state rollback_of w.db r
          w'.db
  unfolding record_action ◌>>=◌ draw_uuid now
  record_action-IsRecorded entity_type action_type entity_id performed_by before_state after_state
        description rollback_of w {r} {w'} h =
      let (named, fresh, known, added) = insert_action-eq-ok _ _ h in
      subst
        (λ (r : ActionRecord).
          IsRecorded entity_type action_type entity_id before_state after_state rollback_of w.db r
            w'.db)
        (sym named)
        (record {
          entity = refl;
          action = refl;
          named = refl;
          before = refl;
          after = refl;
          undoes = refl;
          unmarked = refl;
          tenant = refl;
          fresh = fresh;
          known = known;
          added = added;
        })

  module _ (parse_uuid : Text → Option ℕ) where
    -- What takes the action back was done; then it was marked, and the rollback recorded.
    pub record IsUndone (action_type : ActionType) (entity_type : EntityType)
        (action : ActionRecord) (w : World) (r : ActionRecord) (d' : Database) : Type 0 where
      pub between : World
      pub applied :
          apply_rollback parse_uuid e client action_type entity_type action w ≡ (ok tt, between)
      pub time : ℕ
      pub recorded :
          IsRecorded entity_type rollback action.entity_id
            (rollback_states action_type action).0
            (rollback_states action_type action).1
            (some action.action_id)
            (set_action_history (marked action.action_id time) between.db)
            r
            d'

    pub record IsRolledBack (action : ActionRecord) (w : World) (r : ActionRecord) (d' : Database)
        : Type 0 where
      pub was_open : action.rolled_back_at ≡ none
      pub action_type : ActionType
      pub entity_type : EntityType
      pub acted : parse_action action.action_type ≡ some action_type
      pub on : parse_entity action.entity_type ≡ some entity_type
      pub undone : IsUndone action_type entity_type action w r d'

    rollback_found-IsUndone :
        (action : ActionRecord) (performed_by : Option ℕ) (action_type : ActionType)
        (entity_type : EntityType) (w : World) {r : ActionRecord} {w' : World}
        → rollback_found parse_uuid e client action performed_by action_type entity_type w
          ≡ (ok r, w')
        → IsUndone action_type entity_type action w r w'.db
    unfolding rollback_found mark_action_rolled_back
    rollback_found-IsUndone action performed_by action_type entity_type w {r} {w'} h =
        let (_, w₁, applied, h₁) =
          bind-eq-ok (apply_rollback parse_uuid e client action_type entity_type action) _ w h in
        let (_, w₂, written, h₂) =
          bind-eq-ok (mark_action_rolled_back e action.action_id) _ w₁ h₁ in
        let at : w₂.db ≡ set_action_history (marked action.action_id (e.clock w₁.steps)) w₁.db =
          write-eq-ok e _ w₁ written in
        let recorded = record_action-IsRecorded _ _ _ _ _ _ _ _ w₂ h₂ in
        record {
          between = w₁;
          applied = applied;
          time = e.clock w₁.steps;
          recorded =
              subst
                (λ (d : Database).
                  IsRecorded entity_type rollback action.entity_id
                    (rollback_states action_type action).0 (rollback_states action_type action).1
                    (some action.action_id) d r w'.db)
                at recorded;
        }

    pub rollback_action-IsRolledBack :
        (action : ActionRecord) (performed_by : Option ℕ) (w : World) {r : ActionRecord}
        {w' : World}
        → rollback_action parse_uuid e client action performed_by w ≡ (ok r, w')
        → IsRolledBack action w r w'.db
    unfolding rollback_action
    rollback_action-IsRolledBack action performed_by w {r} {w'} h =
        let (was_open, begun) = if_raise-eq-ok (is_some action.rolled_back_at) _ _ w h in
        let (action_type, w₁, acted, h₁) = bind-eq-ok _ _ w begun in
        let (acted_on, at_w) = or_raise-eq-ok _ _ w acted in
        let (entity_type, w₂, named, h₂) = bind-eq-ok _ _ w₁ h₁ in
        let (on, at_w₁) = or_raise-eq-ok _ _ w₁ named in
        record {
          was_open = is_none_of action.rolled_back_at was_open;
          action_type = action_type;
          entity_type = entity_type;
          acted = acted_on;
          on = on;
          undone =
              subst (λ (v : World). IsUndone action_type entity_type action v r w'.db)
                (at_w₁ ∙ at_w)
                (rollback_found-IsUndone action performed_by action_type entity_type w₂ h₂);
        }
