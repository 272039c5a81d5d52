-- ===== src/Site/Undo/Domains.antt =====
-- Undo and redo of the addition or the removal of a domain, as often as one likes.
use lala_search.Prelude.{
  ℕ, zero, suc, ◌≡◌, refl, sym, ap, subst, ◌∙◌, Bool, true, false, not, Option, none, some, ==-refl,
}
use lala_search.Prelude.Text.{Text, codes, text_eq_refl}
use lala_search.Models.History.{
  ActionType, create, delete, rollback, EntityType, allowed_domain, action_text, entity_text,
  parse_action, parse_entity, parse_action-action_text, parse_entity-entity_text, Snapshot,
  str_field, ActionRecord,
}
use lala_search.World.{Database, World, Env, ok, missing_in_before_state, no_before_state}
use lala_search.World.Success.{bind-of_some}
use lala_search.Crawl.Queue.{DbClient}
use lala_search.Site.Domains.{insert_allowed_domain}
use lala_search.Site.Rollback.{
  required_field, restore_from, apply_rollback, apply_rollback_restore, apply_rollback_delete,
  apply_rollback_undo_rollback, rollback_action,
}
use lala_search.Site.Allowed.{
  allowed_in, run_call-allowed, insert_call, delete_call, run_call, after_call,
}
use lala_search.Site.Undo.{IsUndone, rollback_action-IsRolledBack}

-- What an action of the history did to the domain `x`: it is allowed after it, or it is not.
pub data Did (x : Text) (r : ActionRecord) : Bool → Type 0 where
  added :
      r.action_type ≡ action_text create
      → (s : Snapshot) → r.after_state ≡ some s
      → str_field (codes "domain") s ≡ some x
      → Did x r true
  brought_back :
      r.action_type ≡ action_text rollback
      → r.before_state ≡ none
      → (s : Snapshot) → r.after_state ≡ some s
      → str_field (codes "domain") s ≡ some x
      → Did x r true
  removed :
      r.action_type ≡ action_text delete
      → (s : Snapshot) → r.before_state ≡ some s
      → str_field (codes "domain") s ≡ some x
      → Did x r false
  taken_back :
      r.action_type ≡ action_text rollback
      → r.after_state ≡ none
      → (s : Snapshot) → r.before_state ≡ some s
      → str_field (codes "domain") s ≡ some x
      → Did x r false

-- An action on the domain `x`
pub record IsOn (x : Text) (r : ActionRecord) (allowed : Bool) : Type 0 where
  pub entity : r.entity_type ≡ entity_text allowed_domain
  pub named : r.entity_id ≡ x
  pub did : Did x r allowed

-- The n-th opposite
unfoldable pub flips : ℕ → Bool → Bool
flips zero b = b
flips (suc n) b = not (flips n b)

module _ (parse_uuid : Text → Option ℕ) (e : Env) (client : DbClient) where
  insert-allowed :
      (x by : Text) (notes : Option Text) (w : World) {w' : World}
      → insert_allowed_domain e client x by notes w ≡ (ok tt, w')
      → allowed_in w'.db client.tenant_id x ≡ true
  unfolding run_call after_call
  insert-allowed x by notes w h =
      run_call-allowed e (insert_call client x by notes) w h client.tenant_id x
      ∙ (rw (==-refl client.tenant_id, text_eq_refl x) refl)

  restore-allowed :
      (x : Text) (before_state : Option Snapshot) (s : Snapshot) (w : World) {w' : World}
      → before_state ≡ some s
      → str_field (codes "domain") s ≡ some x
      → apply_rollback_restore parse_uuid e client allowed_domain x before_state w ≡ (ok tt, w')
      → allowed_in w'.db client.tenant_id x ≡ true
  unfolding apply_rollback_restore restore_from required_field
  restore-allowed x before_state s w given names h = insert-allowed x _ _ w (
      sym (bind-of_some (missing_in_before_state (codes "domain")) _ _ w names)
      ∙ sym (
          bind-of_some no_before_state before_state
            (restore_from parse_uuid e client allowed_domain x) w given)
      ∙ h)

  delete-allowed :
      (x : Text) (w : World) {w' : World}
      → apply_rollback_delete parse_uuid e client allowed_domain x w ≡ (ok tt, w')
      → allowed_in w'.db client.tenant_id x ≡ false
  unfolding apply_rollback_delete run_call after_call
  delete-allowed x w h =
      run_call-allowed e (delete_call client x) w h client.tenant_id x
      ∙ (rw (==-refl client.tenant_id, text_eq_refl x) refl)

  module _ (x : Text) (action : ActionRecord) (w : World) (r : ActionRecord) (d' : Database) where
    -- What a rollback that did something to the domain recorded.
    IsOn-of_Did :
        (action_type : ActionType) (allowed : Bool)
        → action.entity_id ≡ x
        → (u : IsUndone e client parse_uuid action_type allowed_domain action w r d')
        → Did x r allowed
        → allowed_in u.between.db client.tenant_id x ≡ allowed
        → IsOn x r allowed × (allowed_in d' client.tenant_id x ≡ allowed)
    unfolding allowed_in
    IsOn-of_Did action_type allowed named u did in_between = (
      record { entity = u.recorded.entity; named = u.recorded.named ∙ named; did = did },
      subst (λ (d : Database). allowed_in d client.tenant_id x ≡ allowed) (sym u.recorded.added)
          in_between,
    )

    IsUndone-of_type :
        (action_type known : ActionType)
        → action.action_type ≡ action_text known
        → parse_action action.action_type ≡ some action_type
        → IsUndone e client parse_uuid action_type allowed_domain action w r d'
        → IsUndone e client parse_uuid known allowed_domain action w r d'
    IsUndone-of_type action_type known typed parsed u =
        let same : some action_type ≡ some known =
          sym parsed ∙ ap parse_action typed ∙ parse_action-action_text known in
        let same_type : action_type ≡ known = cc in
        subst (λ (t : ActionType). IsUndone e client parse_uuid t allowed_domain action w r d')
          same_type u

    undo_of_brought_back :
        (s : Snapshot)
        → action.entity_id ≡ x
        → action.before_state ≡ none
        → action.after_state ≡ some s
        → apply_rollback_undo_rollback parse_uuid e client allowed_domain action w
          ≡ apply_rollback_delete parse_uuid e client allowed_domain x w
    unfolding apply_rollback_undo_rollback
    undo_of_brought_back s named nothing given = rw (given, nothing, named) refl

    undo_of_taken_back :
        (s : Snapshot)
        → action.entity_id ≡ x
        → action.before_state ≡ some s
        → action.after_state ≡ none
        → apply_rollback_undo_rollback parse_uuid e client allowed_domain action w
          ≡ apply_rollback_restore parse_uuid e client allowed_domain x action.before_state w
    unfolding apply_rollback_undo_rollback
    undo_of_taken_back s named given nothing = rw (given, nothing, named) refl

    -- A rollback turns what the action did into its opposite.
    undone-opposite :
        (allowed : Bool) (action_type : ActionType)
        → Did x action allowed
        → action.entity_id ≡ x
        → parse_action action.action_type ≡ some action_type
        → IsUndone e client parse_uuid action_type allowed_domain action w r d'
        → IsOn x r (not allowed) × (allowed_in d' client.tenant_id x ≡ not allowed)
    unfolding apply_rollback
    undone-opposite allowed action_type (added typed s given names) named parsed it =
        let u = IsUndone-of_type action_type create typed parsed it in
        IsOn-of_Did create false named u
          (taken_back u.recorded.action u.recorded.after s (u.recorded.before ∙ given) names)
          (delete-allowed x w (
            subst
              (λ (i : Text).
                apply_rollback_delete parse_uuid e client allowed_domain i w ≡ (ok tt, u.between))
              named u.applied))
    undone-opposite allowed action_type (brought_back typed nothing s given names) named parsed it =
        let u = IsUndone-of_type action_type rollback typed parsed it in
        IsOn-of_Did rollback false named u
          (taken_back u.recorded.action (u.recorded.after ∙ nothing) s (u.recorded.before ∙ given)
            names)
          (delete-allowed x w {w' = u.between}
            (sym (undo_of_brought_back s named nothing given) ∙ u.applied))
    undone-opposite allowed action_type (removed typed s given names) named parsed it =
        let u = IsUndone-of_type action_type delete typed parsed it in
        IsOn-of_Did delete true named u
          (brought_back u.recorded.action u.recorded.before s (u.recorded.after ∙ given) names)
          (restore-allowed x action.before_state s w given names (
            subst
              (λ (i : Text).
                apply_rollback_restore parse_uuid e client allowed_domain i action.before_state w
                ≡ (ok tt, u.between))
              named u.applied))
    undone-opposite allowed action_type (taken_back typed nothing s given names) named parsed it =
        let u = IsUndone-of_type action_type rollback typed parsed it in
        IsOn-of_Did rollback true named u
          (brought_back u.recorded.action (u.recorded.before ∙ nothing) s (u.recorded.after ∙ given)
            names)
          (restore-allowed x action.before_state s w {w' = u.between} given names
            (sym (undo_of_taken_back s named given nothing) ∙ u.applied))

  rollback_action-opposite :
      (x : Text) (action : ActionRecord) (allowed : Bool) (performed_by : Option ℕ) (w : World)
      {r : ActionRecord} {w' : World}
      → IsOn x action allowed
      → rollback_action parse_uuid e client action performed_by w ≡ (ok r, w')
      → IsOn x r (not allowed) × (allowed_in w'.db client.tenant_id x ≡ not allowed)
  rollback_action-opposite x action allowed performed_by w {r} {w'} on h =
      let it = rollback_action-IsRolledBack e client parse_uuid action performed_by w h in
      let same : some it.entity_type ≡ some allowed_domain =
        sym it.on ∙ ap parse_entity on.entity ∙ parse_entity-entity_text allowed_domain in
      let same_type : it.entity_type ≡ allowed_domain = cc in
      undone-opposite x action w r w'.db allowed it.action_type on.did on.named it.acted (
        subst (λ (t : EntityType). IsUndone e client parse_uuid it.action_type t action w r w'.db)
          same_type it.undone)

  -- Rollbacks of an action, each of what the one before recorded. In between the world may become
  -- any other.
  pub data Rollbacks (start : ActionRecord) : ℕ → ActionRecord → World → Type 0 where
    not_yet : (w : World) → Rollbacks start zero start w
    once_more :
        (n : ℕ) (last : ActionRecord) (w : World)
        → Rollbacks start n last w
        → (between : World) (performed_by : Option ℕ) (r : ActionRecord) (w' : World)
        → rollback_action parse_uuid e client last performed_by between ≡ (ok r, w')
        → Rollbacks start (suc n) r w'

  Rollbacks-IsOn :
      (x : Text) (start : ActionRecord) (allowed : Bool) (n : ℕ) (r : ActionRecord) (w : World)
      → IsOn x start allowed
      → Rollbacks start n r w
      → IsOn x r (flips n allowed)
  unfolding flips
  Rollbacks-IsOn x start allowed _ _ _ on (not_yet w) = on
  Rollbacks-IsOn x start allowed _ _ _ on (once_more n last w before between p r w' h) =
      (rollback_action-opposite x last (flips n allowed) p between
        (Rollbacks-IsOn x start allowed n last w on before) h).0

  -- Take an action that added the domain or brought it back (`allowed`), or removed it or took it
  -- back. However often it is undone and redone in turn, and whatever happens in between, the domain
  -- is allowed right after the n-th of these rollbacks exactly as the n-th opposite of the action
  -- wants it.
  pub rollback_action-flips :
      (x : Text) (start : ActionRecord) (allowed : Bool) (n : ℕ) (r : ActionRecord) (w : World)
      → IsOn x start allowed
      → Rollbacks start (suc n) r w
      → allowed_in w.db client.tenant_id x ≡ flips (suc n) allowed
  unfolding flips
  rollback_action-flips x start allowed _ _ _ on (once_more n last w before between p r w' h) =
      (rollback_action-opposite x last (flips n allowed) p between
        (Rollbacks-IsOn x start allowed n last w on before) h).1
