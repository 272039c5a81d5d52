-- ===== src/Site/Undo/Once.antt =====
-- An action that was rolled back is offered for undo or redo no more.
use lala_search.Prelude.{
  ℕ, ◌≡◌, ◌≢◌, ◌⊎◌, inl, inr, refl, sym, subst, Bool, true, false, Option, none, some, List, [],
  ◌∷◌, ◌++◌, arith, is_none, Bool-cases, All, All-append, if◌then◌else◌,
}
use lala_search.Prelude.Text.{Text}
use lala_search.Prelude.Table.{exists_row, update_rows, select_all, first_row, first_of}
use lala_search.Models.History.{
  ActionType, create, edit, delete, rollback, EntityType, allowed_domain, setting, org_membership,
  Snapshot, ActionRecord,
}
use lala_search.World.{Database, World, Env, ok}
use lala_search.World.Keeps.{
  Keeps, Keeps-pure, Keeps-bind, Keeps-write, Keeps-write_if, keeps_rules,
}
use lala_search.World.Success.{fetch-eq-ok}
use lala_search.Crawl.Queue.{DbClient, set_setting}
use lala_search.Site.Domains.{insert_allowed_domain, delete_allowed_domain}
use lala_search.Site.History.{
  has_action_id, is_later, is_undoable, is_redoable, get_last_undoable_action,
  get_last_redoable_action, insert_action, record_action, mark_action_rolled_back,
}
use lala_search.Site.Rollback.{
  required_field, parse_membership_entity_id, end_membership, restore_membership, delete_setting,
  apply_rollback_delete, restore_from, apply_rollback_restore, apply_rollback_edit,
  apply_rollback_undo_rollback, apply_rollback, rollback_found, rollback_action,
}
use lala_search.Site.Undo.{marked, rollback_action-IsRolledBack}

module _ {ℓ} {R : Type ℓ} (P : R → Type 0) where
  first_of_lem :
      (before : R → R → Bool) (r : R) (o : Option R)
      → P r
      → ((s : R) → o ≡ some s → P s)
      → P (first_of before r o)
  unfolding first_of
  first_of_lem before r none p h = p
  first_of_lem before r (some s) p h = elim (before s r) as (λ b. P (if b then s else r)) [
    | true ↦ h s refl
    | false ↦ p
  ]

  All-first_row :
      (before : R → R → Bool) (rows : List R) {r : R}
      → All P rows
      → first_row before rows ≡ some r
      → P r
  unfolding first_row
  All-first_row before [] all h = cc
  All-first_row before (s ∷ rows) {r} (p, all) h =
      let picked : first_of before s (first_row before rows) ≡ r = cc in
      subst P picked (first_of_lem before s _ p (λ t found. All-first_row before rows all found))

  All-select_all :
      (q : R → Bool) (rows : List R)
      → All P rows
      → All (λ r. (q r ≡ true) × P r) (select_all q rows)
  unfolding select_all
  All-select_all q [] all = tt
  All-select_all q (s ∷ rows) (p, all) =
      let rest = All-select_all q rows all in
      elim (Bool-cases (q s)) [ inl met ↦ rw met ((met, p), rest) | inr unmet ↦ rw unmet rest ]

-- The row is not an open row of the action.
abbrev Closed : ℕ → ActionRecord → Type 0
Closed action_id r = r.action_id ≡ action_id → is_none r.rolled_back_at ≡ false

marked-Closed :
    (action_id t : ℕ) (rows : List ActionRecord) → All (Closed action_id) (marked action_id t rows)
unfolding update_rows
marked-Closed action_id t [] = tt
marked-Closed action_id t (r ∷ rows) = (ground arith, marked-Closed action_id t rows)

-- A row that is not the action's, since the one is in the table and the other is not.
Closed-of_fresh :
    (action_id : ℕ) (r : ActionRecord) (rows : List ActionRecord)
    → exists_row (has_action_id r.action_id) rows ≡ false
    → exists_row (has_action_id action_id) rows ≡ true
    → Closed action_id r
Closed-of_fresh action_id r rows fresh known same =
    let clash : exists_row (has_action_id action_id) rows ≡ false =
      subst (λ (i : ℕ). exists_row (has_action_id i) rows ≡ false) same fresh in
    cc

-- What a query for open rows picks is no row of an action whose rows are closed.
first-apart :
    (q : ActionRecord → Bool) (action_id : ℕ) (rows : List ActionRecord)
    → All (Closed action_id) rows
    → ((s : ActionRecord) → q s ≡ true → is_none s.rolled_back_at ≡ true)
    → (next : ActionRecord) → first_row is_later (select_all q rows) ≡ some next
    → next.action_id ≢ action_id
first-apart q action_id rows closed open_only next picked same =
    let (met, apart) =
      All-first_row (λ (r : ActionRecord). (q r ≡ true) × Closed action_id r) is_later
        (select_all q rows) (All-select_all (Closed action_id) q rows closed) picked in
    let still = open_only next met in let gone = apart same in cc

exists_row-append :
    {R : Type 0} (p : R → Bool) (rows : List R) (r : R)
    → exists_row p rows ≡ true
    → exists_row p (rows ++ r ∷ []) ≡ true
unfolding exists_row
exists_row-append p [] r h = ground (arith, h)
exists_row-append p (s ∷ rows) r h = ground (arith, h, exists_row-append p rows r)

-- The action is in the history, and no row of it is open.
abbrev IsClosedIn : ℕ → List ActionRecord → Type 0
IsClosedIn action_id rows =
    All (Closed action_id) rows × (exists_row (has_action_id action_id) rows ≡ true)

abbrev IsClosed : ℕ → Database → Type 0
IsClosed action_id d = IsClosedIn action_id d.site.action_history

IsClosedIn-marked :
    (action_id other t : ℕ) (rows : List ActionRecord)
    → IsClosedIn action_id rows
    → IsClosedIn action_id (marked other t rows)
unfolding update_rows exists_row
IsClosedIn-marked action_id other t rows (closed, known) =
    (All-marked rows closed, exists_row-marked rows known)
  where
    All-marked :
        (rows : List ActionRecord)
        → All (Closed action_id) rows
        → All (Closed action_id) (marked other t rows)
    All-marked [] closed = tt
    All-marked (r ∷ rows) (p, closed) = (ground (arith, p), All-marked rows closed)

    exists_row-marked :
        (rows : List ActionRecord)
        → exists_row (has_action_id action_id) rows ≡ true
        → exists_row (has_action_id action_id) (marked other t rows) ≡ true
    exists_row-marked [] known = known
    exists_row-marked (r ∷ rows) known = ground (arith, known, exists_row-marked rows)

module _ (e : Env) (action_id : ℕ) where
  insert_action-IsClosed : (row : ActionRecord) → Keeps (IsClosed action_id) (insert_action e row)
  unfolding insert_action
  insert_action-IsClosed row =
      Keeps-bind _ _
        (Keeps-write_if e _ _ (λ t d allowed (closed, known). (
          All-append (Closed action_id) d.site.action_history (row ∷ []) closed (
            Closed-of_fresh action_id row d.site.action_history (ground (arith, allowed)) known,
            tt,
          ),
          exists_row-append (has_action_id action_id) d.site.action_history row known,
        )))
        (λ _. Keeps-pure row)

  record_action-IsClosed :
      (client : DbClient) (entity_type : EntityType) (action_type : ActionType) (entity_id : Text)
      (performed_by : Option ℕ) (before_state after_state : Option Snapshot) (description : Text)
      (rollback_of : Option ℕ)
      → Keeps (IsClosed action_id) (
          record_action e client entity_type action_type entity_id performed_by before_state
            after_state description rollback_of)
  unfolding record_action
  record_action-IsClosed client entity_type action_type entity_id performed_by before_state
        after_state description rollback_of =
      search (keeps_rules, insert_action-IsClosed) depth 9

  mark-IsClosed : (other : ℕ) → Keeps (IsClosed action_id) (mark_action_rolled_back e other)
  unfolding mark_action_rolled_back
  mark-IsClosed other =
      Keeps-write e _
        (λ t d closed. IsClosedIn-marked action_id other t d.site.action_history closed)

  module _ (parse_uuid : Text → Option ℕ) (client : DbClient) where
    delete-IsClosed :
        (entity_type : EntityType) (entity_id : Text)
        → Keeps
            (IsClosed action_id)
            (apply_rollback_delete parse_uuid e client entity_type entity_id)
    unfolding apply_rollback_delete delete_allowed_domain delete_setting parse_membership_entity_id
        end_membership
    delete-IsClosed allowed_domain entity_id = search keeps_rules depth 9
    delete-IsClosed setting entity_id = search keeps_rules depth 9
    delete-IsClosed org_membership entity_id = search keeps_rules depth 9

    restore-IsClosed :
        (entity_type : EntityType) (entity_id : Text) (before : Snapshot)
        → Keeps (IsClosed action_id) (restore_from parse_uuid e client entity_type entity_id before)
    unfolding restore_from required_field insert_allowed_domain set_setting
        parse_membership_entity_id restore_membership
    restore-IsClosed allowed_domain entity_id before = search keeps_rules depth 9
    restore-IsClosed setting entity_id before = search keeps_rules depth 14
    restore-IsClosed org_membership entity_id before = search keeps_rules depth 9

    restores-IsClosed :
        (entity_type : EntityType) (entity_id : Text) (before : Option Snapshot)
        → Keeps
            (IsClosed action_id)
            (apply_rollback_restore parse_uuid e client entity_type entity_id before)
    unfolding apply_rollback_restore
    restores-IsClosed entity_type entity_id before = search (keeps_rules, restore-IsClosed) depth 9

    apply-IsClosed :
        (action_type : ActionType) (entity_type : EntityType) (action : ActionRecord)
        → Keeps
            (IsClosed action_id)
            (apply_rollback parse_uuid e client action_type entity_type action)
    unfolding apply_rollback apply_rollback_edit apply_rollback_undo_rollback
    apply-IsClosed create entity_type action = delete-IsClosed entity_type action.entity_id
    apply-IsClosed delete entity_type action = restores-IsClosed entity_type action.entity_id _
    apply-IsClosed edit entity_type action = restores-IsClosed entity_type action.entity_id _
    apply-IsClosed rollback entity_type action =
        search (keeps_rules, delete-IsClosed, restores-IsClosed) depth 9

    rollback_action-IsClosed :
        (action : ActionRecord) (performed_by : Option ℕ)
        → Keeps (IsClosed action_id) (rollback_action parse_uuid e client action performed_by)
    unfolding rollback_action rollback_found
    rollback_action-IsClosed action performed_by =
        search (keeps_rules, apply-IsClosed, mark-IsClosed, record_action-IsClosed) depth 20

module _ (parse_uuid : Text → Option ℕ) (e : Env) (client : DbClient) where
  rollback_action-Closed :
      (action : ActionRecord) (performed_by : Option ℕ) (w : World) {r : ActionRecord} {w' : World}
      → rollback_action parse_uuid e client action performed_by w ≡ (ok r, w')
      → All (Closed action.action_id) w'.site.action_history
  rollback_action-Closed action performed_by w {r} {w'} h =
      let it = rollback_action-IsRolledBack e client parse_uuid action performed_by w h in
      let now_in = it.undone.recorded in
      let rows = marked action.action_id it.undone.time it.undone.between.site.action_history in
      subst (λ (d : Database). All (Closed action.action_id) d.site.action_history)
        (sym now_in.added)
        (All-append (Closed action.action_id) rows (r ∷ []) (marked-Closed _ _ _)
          (Closed-of_fresh action.action_id r rows now_in.fresh now_in.known, tt))

  undone-IsClosed :
      (action : ActionRecord) (performed_by : Option ℕ) (w : World) {r : ActionRecord} {w' : World}
      → rollback_action parse_uuid e client action performed_by w ≡ (ok r, w')
      → IsClosed action.action_id w'.db
  undone-IsClosed action performed_by w {r} {w'} h =
      let it = rollback_action-IsRolledBack e client parse_uuid action performed_by w h in
      let now_in = it.undone.recorded in
      let rows = marked action.action_id it.undone.time it.undone.between.site.action_history in
      (
        rollback_action-Closed action performed_by w h,
        subst
            (λ (d : Database).
              exists_row (has_action_id action.action_id) d.site.action_history ≡ true)
            (sym now_in.added)
            (exists_row-append (has_action_id action.action_id) rows r now_in.known),
      )

module _ (parse_uuid : Text → Option ℕ) (e : Env) where
  -- Whatever leaves the history as it is, an action that anybody records, or a rollback of any
  -- action by anybody; each of them may fail.
  pub data HistoryStep (w : World) : World → Type 0 where
    elsewhere : (w' : World) → w'.site.action_history ≡ w.site.action_history → HistoryStep w w'
    records :
        (client : DbClient) (entity_type : EntityType) (action_type : ActionType) (entity_id : Text)
        (performed_by : Option ℕ) (before_state after_state : Option Snapshot) (description : Text)
        (rollback_of : Option ℕ)
        → HistoryStep w
            (record_action e client entity_type action_type entity_id performed_by before_state
              after_state description rollback_of w).1
    rolls_back :
        (client : DbClient) (action : ActionRecord) (performed_by : Option ℕ)
        → HistoryStep w (rollback_action parse_uuid e client action performed_by w).1

  -- Any number of such steps
  pub data Later (w : World) : World → Type 0 where
    at_once : Later w w
    after_step : {v u : World} → Later w v → HistoryStep v u → Later w u

  HistoryStep-IsClosed :
      (action_id : ℕ) {w w' : World}
      → HistoryStep w w'
      → IsClosed action_id w.db
      → IsClosed action_id w'.db
  HistoryStep-IsClosed action_id (elsewhere w' same) closed =
      subst (IsClosedIn action_id) (sym same) closed
  HistoryStep-IsClosed action_id {w}
        (records client entity_type action_type entity_id performed_by before_state after_state
          description rollback_of)
        closed =
      (record_action-IsClosed e action_id client entity_type action_type entity_id performed_by
          before_state after_state description rollback_of).through
        w closed
  HistoryStep-IsClosed action_id {w} (rolls_back client action performed_by) closed =
      (rollback_action-IsClosed e action_id parse_uuid client action performed_by).through w closed

  Later-IsClosed :
      (action_id : ℕ) {w w' : World}
      → Later w w'
      → IsClosed action_id w.db
      → IsClosed action_id w'.db
  Later-IsClosed action_id at_once closed = closed
  Later-IsClosed action_id (after_step before step) closed =
      HistoryStep-IsClosed action_id step (Later-IsClosed action_id before closed)

  -- After a rollback that succeeded, no undo and no redo of any tenant's client ever picks the
  -- action that was rolled back, whatever actions were recorded and rolled back since then by
  -- anybody, with whatever outcome, and whatever else was done that leaves the history as it is.
  pub rollback_action-once :
      (client : DbClient) (action : ActionRecord) (performed_by : Option ℕ) (w : World)
      (r : ActionRecord) (w' : World)
      → rollback_action parse_uuid e client action performed_by w ≡ (ok r, w')
      → (v : World) → Later w' v
      → (other : DbClient) (next : ActionRecord) (v₁ : World)
      → ((get_last_undoable_action e other v ≡ (ok (some next), v₁))
          ⊎ (get_last_redoable_action e other v ≡ (ok (some next), v₁)))
      → next.action_id ≢ action.action_id
  unfolding get_last_undoable_action get_last_redoable_action
  rollback_action-once client action performed_by w r w' h v later other next v₁ picked same =
      let closed =
        Later-IsClosed action.action_id later
          (undone-IsClosed parse_uuid e client action performed_by w h) in
      elim picked [
        | inl undo ↦
            first-apart (is_undoable other.tenant_id) action.action_id v.site.action_history
              closed.0 (λ s met. ground (arith, met)) next (sym (fetch-eq-ok e _ v undo).0) same
        | inr redo ↦
            first-apart (is_redoable other.tenant_id) action.action_id v.site.action_history
              closed.0 (λ s met. ground (arith, met)) next (sym (fetch-eq-ok e _ v redo).0) same
      ]
