-- ===== src/Models/History.antt =====
-- lala-agent/src/models/action_history.rs: what is recorded of an action that can be undone. A
-- snapshot is a JSON object whose values are strings or null; the order of its keys is that of the
-- source.
use lala_search.Prelude.{ℕ, ◌≡◌, refl, Option, none, some, List, [], ◌∷◌, if◌then◌else◌}
use lala_search.Prelude.Text.{Text, codes, text_eq}

pub data ActionType : Type 0 where
  create edit delete rollback : ActionType

pub data EntityType : Type 0 where
  allowed_domain setting org_membership : EntityType

-- `fmt::Display`
unfoldable pub action_text : ActionType → Text
action_text create = codes "create"
action_text edit = codes "edit"
action_text delete = codes "delete"
action_text rollback = codes "rollback"

-- The source panics at any other text: `none`.
unfoldable pub parse_action : Text → Option ActionType
parse_action s =
    if text_eq s (codes "create")
    then some create
    else if text_eq s (codes "edit")
    then some edit
    else if text_eq s (codes "delete")
    then some delete
    else if text_eq s (codes "rollback")
    then some rollback
    else none

unfoldable pub entity_text : EntityType → Text
entity_text allowed_domain = codes "allowed_domain"
entity_text setting = codes "setting"
entity_text org_membership = codes "org_membership"

unfoldable pub parse_entity : Text → Option EntityType
parse_entity s =
    if text_eq s (codes "allowed_domain")
    then some allowed_domain
    else if text_eq s (codes "setting")
    then some setting
    else if text_eq s (codes "org_membership")
    then some org_membership
    else none

pub parse_action-action_text : (t : ActionType) → parse_action (action_text t) ≡ some t
unfolding parse_action action_text text_eq
parse_action-action_text create = refl
parse_action-action_text edit = refl
parse_action-action_text delete = refl
parse_action-action_text rollback = refl

pub parse_entity-entity_text : (t : EntityType) → parse_entity (entity_text t) ≡ some t
unfolding parse_entity entity_text text_eq
parse_entity-entity_text allowed_domain = refl
parse_entity-entity_text setting = refl
parse_entity-entity_text org_membership = refl

abbrev pub Snapshot : Type 0
Snapshot = List (Text × Option Text)

-- `object[key].as_str()`
unfoldable pub str_field : Text → Snapshot → Option Text
str_field key [] = none
str_field key ((k, v) ∷ object) = if text_eq k key then v else str_field key object

pub record ActionRecord : Type 0 where
  pub action_id : ℕ
  pub tenant_id : ℕ
  pub performed_by : Option ℕ
  pub performed_at : ℕ
  pub rolled_back_at : Option ℕ
  pub rollback_of : Option ℕ
  pub entity_type : Text
  pub action_type : Text
  pub entity_id : Text
  pub before_state : Option Snapshot
  pub after_state : Option Snapshot
  pub description : Text
