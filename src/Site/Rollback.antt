-- ===== src/Site/Rollback.antt =====
-- lala-agent/src/services/db.rs: `rollback_action`, which takes back an action of the history by
-- means of its snapshots and records that as an action of its own. `parse_uuid` is
-- `Uuid::parse_str`.
use lala_search.Prelude.{
  ℕ, ◌&&◌, Option, none, some, List, [], ◌∷◌, ◌++◌, ◌==◌, is_none, is_some, unwrap_or,
  if◌then◌else◌,
}
use lala_search.Prelude.Text.{Text, codes, strip_prefix, split}
use lala_search.Prelude.Table.{update_rows, delete_rows}
use lala_search.Models.History.{
  ActionType, create, edit, delete, rollback, EntityType, allowed_domain, setting, org_membership,
  parse_action, parse_entity, Snapshot, str_field, ActionRecord,
}
use lala_search.Models.Rows.{MembershipRow}
use lala_search.World.{
  Env, M, raise, or_raise, write, ◌>>=◌, ◌>>◌, panicked, invalid_entity_id, no_before_state,
  missing_in_before_state, action_already_rolled_back,
}
use lala_search.Crawl.Queue.{DbClient, is_setting, set_setting}
use lala_search.Site.Domains.{insert_allowed_domain, delete_allowed_domain}
use lala_search.Site.History.{mark_action_rolled_back, record_action}

abbrev pub or_else : {A : Type 0} → Option A → Option A → Option A
or_else none other = other
or_else (some a) other = some a

-- The description without the word that an earlier rollback put before it
unfoldable pub base_description : Text → Text
base_description description =
    unwrap_or
      (or_else (strip_prefix (codes "Rolled back: ") description)
        (strip_prefix (codes "Redone: ") description))
      description

unfoldable pub rollback_description : ActionType → Text → Text
unfolding base_description
rollback_description rollback description = codes "Redone: " ++ base_description description
rollback_description _ description = codes "Rolled back: " ++ base_description description

-- The states before and after a rollback, as it is recorded
abbrev pub rollback_states : ActionType → ActionRecord → Option Snapshot × Option Snapshot
rollback_states create action = (action.after_state, none)
rollback_states delete action = (none, action.before_state)
rollback_states edit action = (action.after_state, action.before_state)
rollback_states rollback action = (action.after_state, action.before_state)

-- `before[key].as_str().ok_or_else(|| …)?`
unfoldable pub required_field : Text → Snapshot → M Text
required_field key before = or_raise (missing_in_before_state key) (str_field key before)

module _ (parse_uuid : Text → Option ℕ) where
  -- "tenant_id:user_id"
  unfoldable pub parse_pair : List Text → Option (ℕ × ℕ)
  parse_pair (first ∷ second ∷ []) = elim (parse_uuid first) [
    | none ↦ none
    | some tenant_id ↦ elim (parse_uuid second) [
      | none ↦ none
      | some user_id ↦ some (tenant_id, user_id)
    ]
  ]
  parse_pair _ = none

  unfoldable pub parse_membership_entity_id : Text → M (ℕ × ℕ)
  unfolding parse_pair
  parse_membership_entity_id entity_id =
      or_raise invalid_entity_id (parse_pair (split b':' entity_id))

  module _ (e : Env) (client : DbClient) where
    unfoldable pub end_membership : ℕ × ℕ → M (Unit {0})
    end_membership (tenant_id, user_id) = write e (λ t d. record d {
      org_memberships =
          update_rows
            (λ (r : MembershipRow).
              (r.tenant_id == tenant_id) && (r.user_id == user_id) && is_none r.deleted_at)
            (λ r. record r { deleted_at = some t }) d.org_memberships;
    })

    unfoldable pub restore_membership : Text → ℕ × ℕ → M (Unit {0})
    restore_membership role (tenant_id, user_id) = write e (λ t d. record d {
      org_memberships =
          update_rows (λ (r : MembershipRow). (r.tenant_id == tenant_id) && (r.user_id == user_id))
            (λ r. record r { deleted_at = none; role = role }) d.org_memberships;
    })

    unfoldable pub delete_setting : Text → M (Unit {0})
    delete_setting key =
        write e
          (λ t d. record d { settings = delete_rows (is_setting client.tenant_id key) d.settings })

    unfoldable pub apply_rollback_delete : EntityType → Text → M (Unit {0})
    apply_rollback_delete allowed_domain entity_id = delete_allowed_domain e client entity_id
    apply_rollback_delete setting entity_id = delete_setting entity_id
    apply_rollback_delete org_membership entity_id = do
      ids ← parse_membership_entity_id entity_id
      end_membership ids

    unfoldable pub restore_from : EntityType → Text → Snapshot → M (Unit {0})
    restore_from allowed_domain entity_id before = do
      domain ← required_field (codes "domain") before
      insert_allowed_domain e client domain
          (unwrap_or (str_field (codes "added_by") before) (codes "rollback"))
          (str_field (codes "notes") before)
    restore_from setting entity_id before = do
      key ← required_field (codes "key") before
      value ← required_field (codes "value") before
      set_setting e client key value
    restore_from org_membership entity_id before = do
      ids ← parse_membership_entity_id entity_id
      restore_membership (unwrap_or (str_field (codes "role") before) (codes "member")) ids

    -- The action's entity and the state that it is set to again
    unfoldable pub apply_rollback_restore : EntityType → Text → Option Snapshot → M (Unit {0})
    apply_rollback_restore entity_type entity_id before_state = do
      before ← or_raise no_before_state before_state
      restore_from entity_type entity_id before

    unfoldable pub apply_rollback_edit : EntityType → ActionRecord → M (Unit {0})
    apply_rollback_edit entity_type action =
        apply_rollback_restore entity_type action.entity_id action.before_state

    unfoldable pub apply_rollback_undo_rollback : EntityType → ActionRecord → M (Unit {0})
    apply_rollback_undo_rollback entity_type action =
        if is_some action.after_state && is_none action.before_state
        then apply_rollback_delete entity_type action.entity_id
        else if is_some action.before_state && is_none action.after_state
        then apply_rollback_restore entity_type action.entity_id action.before_state
        else apply_rollback_restore entity_type action.entity_id action.after_state

    unfoldable pub apply_rollback : ActionType → EntityType → ActionRecord → M (Unit {0})
    apply_rollback create entity_type action = apply_rollback_delete entity_type action.entity_id
    apply_rollback delete entity_type action =
        apply_rollback_restore entity_type action.entity_id action.before_state
    apply_rollback edit entity_type action = apply_rollback_edit entity_type action
    apply_rollback rollback entity_type action = apply_rollback_undo_rollback entity_type action

    unfoldable pub rollback_found :
        ActionRecord → Option ℕ → ActionType → EntityType → M ActionRecord
    rollback_found action performed_by action_type entity_type = do
      apply_rollback action_type entity_type action
      mark_action_rolled_back e action.action_id
      record_action e client entity_type rollback action.entity_id performed_by
          (rollback_states action_type action).0 (rollback_states action_type action).1
          (rollback_description action_type action.description) (some action.action_id)

    unfoldable pub rollback_action : ActionRecord → Option ℕ → M ActionRecord
    rollback_action action performed_by =
        if is_some action.rolled_back_at then raise action_already_rolled_back else do
          action_type ← or_raise panicked (parse_action action.action_type)
          entity_type ← or_raise panicked (parse_entity action.entity_type)
          rollback_found action performed_by action_type entity_type
