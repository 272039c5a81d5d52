-- ===== src/Site/Undo/Edits.antt =====
-- Undo and redo of a change of a setting.
use lala_search.Prelude.{ℕ, ◌≡◌, refl, sym, ap, subst, ◌∙◌, Option, some}
use lala_search.Prelude.Text.{Text, codes}
use lala_search.Prelude.Table.{select_one}
use lala_search.Models.History.{
  ActionType, edit, rollback, EntityType, setting, action_text, entity_text, parse_action,
  parse_entity, parse_action-action_text, parse_entity-entity_text, Snapshot, str_field,
  ActionRecord,
}
use lala_search.World.{Database, World, Env, ok, no_before_state, missing_in_before_state}
use lala_search.World.Success.{bind-of_some}
use lala_search.Crawl.Queue.{DbClient, is_setting, setting_value}
use lala_search.Crawl.Switch.{setting-set_setting}
use lala_search.Site.Rollback.{
  required_field, restore_from, apply_rollback, apply_rollback_edit, apply_rollback_restore,
  apply_rollback_undo_rollback, rollback_action,
}
use lala_search.Site.Undo.{IsUndone, IsRolledBack, rollback_action-IsRolledBack}

-- The snapshot of a setting
pub record IsSnapshot (key value : Text) (s : Option Snapshot) : Type 0 where
  pub it : Snapshot
  pub is_there : s ≡ some it
  pub of_key : str_field (codes "key") it ≡ some key
  pub of_value : str_field (codes "value") it ≡ some value

-- A recorded change of the setting from the one value to the other
pub record IsEdit (key old_value new_value : Text) (r : ActionRecord) : Type 0 where
  pub entity : r.entity_type ≡ entity_text setting
  pub action : r.action_type ≡ action_text edit
  pub before : IsSnapshot key old_value r.before_state
  pub after : IsSnapshot key new_value r.after_state

move :
    {key value : Text} {s t : Option Snapshot}
    → t ≡ s
    → IsSnapshot key value s
    → IsSnapshot key value t
move e is = record {
  it = is.it;
  is_there = e ∙ is.is_there;
  of_key = is.of_key;
  of_value = is.of_value;
}

-- What a client's tenant reads of a setting
abbrev pub value_in : DbClient → Text → Database → Option Text
value_in client key d = setting_value (select_one (is_setting client.tenant_id key) d.settings)

module _ (parse_uuid : Text → Option ℕ) (e : Env) (client : DbClient) where
  restore-value :
      (key value entity_id : Text) (s : Option Snapshot) (w : World) {w' : World}
      → IsSnapshot key value s
      → apply_rollback_restore parse_uuid e client setting entity_id s w ≡ (ok tt, w')
      → value_in client key w'.db ≡ some value
  unfolding apply_rollback_restore restore_from required_field
  restore-value key value entity_id s w {w'} is h = setting-set_setting e client key value w w' (
      sym (bind-of_some (missing_in_before_state (codes "value")) _ _ w is.of_value)
      ∙ sym (bind-of_some (missing_in_before_state (codes "key")) _ _ w is.of_key)
      ∙ sym (
          bind-of_some no_before_state s (restore_from parse_uuid e client setting entity_id) w
            is.is_there)
      ∙ h)

  -- An undone change left the old value, and a record of the two snapshots in the other order.
  pub record IsUndoOfEdit (key old_value new_value : Text) (r : ActionRecord) (d : Database)
      : Type 0 where
    pub entity : r.entity_type ≡ entity_text setting
    pub action : r.action_type ≡ action_text rollback
    pub before : IsSnapshot key new_value r.before_state
    pub after : IsSnapshot key old_value r.after_state
    pub reads : value_in client key d ≡ some old_value

  module _ (action : ActionRecord) (w : World) (r : ActionRecord) (d' : Database) where
    undone_of_type :
        (known : ActionType)
        → action.action_type ≡ action_text known
        → action.entity_type ≡ entity_text setting
        → IsRolledBack e client parse_uuid action w r d'
        → IsUndone e client parse_uuid known setting action w r d'
    undone_of_type known typed on it =
        let same : some it.action_type ≡ some known =
          sym it.acted ∙ ap parse_action typed ∙ parse_action-action_text known in
        let same_type : it.action_type ≡ known = cc in
        let same_on : some it.entity_type ≡ some setting =
          sym it.on ∙ ap parse_entity on ∙ parse_entity-entity_text setting in
        let same_entity : it.entity_type ≡ setting = cc in
        subst (λ (t : ActionType). IsUndone e client parse_uuid t setting action w r d') same_type
          (subst (λ (t : EntityType). IsUndone e client parse_uuid it.action_type t action w r d')
            same_entity it.undone)

  undo-IsUndoOfEdit :
      (key old_value new_value : Text) (action : ActionRecord) (performed_by : Option ℕ) (w : World)
      {r : ActionRecord} {w' : World}
      → IsEdit key old_value new_value action
      → rollback_action parse_uuid e client action performed_by w ≡ (ok r, w')
      → IsUndoOfEdit key old_value new_value r w'.db
  unfolding apply_rollback apply_rollback_edit
  undo-IsUndoOfEdit key old_value new_value action performed_by w {r} {w'} is h =
      let it = rollback_action-IsRolledBack e client parse_uuid action performed_by w h in
      let u = undone_of_type action w r w'.db edit is.action is.entity it in
      record {
        entity = u.recorded.entity;
        action = u.recorded.action;
        before = move u.recorded.before is.after;
        after = move u.recorded.after is.before;
        reads =
            subst (λ (d : Database). value_in client key d ≡ some old_value) (sym u.recorded.added)
              (restore-value key old_value _ _ w is.before u.applied);
      }

  undo_of_both :
      (action : ActionRecord) (w : World) (s t : Snapshot)
      → action.before_state ≡ some s
      → action.after_state ≡ some t
      → apply_rollback_undo_rollback parse_uuid e client setting action w
        ≡ apply_rollback_restore parse_uuid e client setting action.entity_id action.after_state w
  unfolding apply_rollback_undo_rollback
  undo_of_both action w s t given also = rw (given, also) refl

  redo-value :
      (key old_value new_value : Text) (action : ActionRecord) (performed_by : Option ℕ) (w : World)
      {d : Database} {r : ActionRecord} {w' : World}
      → IsUndoOfEdit key old_value new_value action d
      → rollback_action parse_uuid e client action performed_by w ≡ (ok r, w')
      → value_in client key w'.db ≡ some old_value
  unfolding apply_rollback apply_rollback_undo_rollback
  redo-value key old_value new_value action performed_by w {d} {r} {w'} is h =
      let it = rollback_action-IsRolledBack e client parse_uuid action performed_by w h in
      let u = undone_of_type action w r w'.db rollback is.action is.entity it in
      let restored = restore-value key old_value action.entity_id action.after_state w is.after (
        sym (undo_of_both action w is.before.it is.after.it is.before.is_there is.after.is_there)
        ∙ u.applied) in
      subst (λ (d : Database). value_in client key d ≡ some old_value) (sym u.recorded.added)
        restored

  -- The undo of a setting's change puts the old value back. The redo of that undo, whatever
  -- happened in between, does not put the new value back: it writes the old one again.
  pub rollback_action-edits :
      (key old_value new_value : Text) (action undo redo : ActionRecord)
      (first_by then_by : Option ℕ) (w w₁ w₂ w₃ : World)
      → IsEdit key old_value new_value action
      → rollback_action parse_uuid e client action first_by w ≡ (ok undo, w₁)
      → rollback_action parse_uuid e client undo then_by w₂ ≡ (ok redo, w₃)
      → (value_in client key w₁.db ≡ some old_value) × (value_in client key w₃.db ≡ some old_value)
  rollback_action-edits key old_value new_value action undo redo first_by then_by w w₁ w₂ w₃ is
        undone redone =
      let after = undo-IsUndoOfEdit key old_value new_value action first_by w is undone in
      (after.reads, redo-value key old_value new_value undo then_by w₂ after redone)
