-- ===== src/Site/History.antt =====
-- lala-agent/src/services/db.rs: the log of the administrators' actions.
use lala_search.Prelude.{
  ℕ, Bool, true, false, not, ◌&&◌, Option, none, some, List, [], ◌∷◌, ◌++◌, ◌==◌, ltb, is_none,
}
use lala_search.Prelude.Text.{Text, codes, text_eq}
use lala_search.Prelude.Integers.{ℤ, pos, negsuc}
use lala_search.Prelude.Table.{
  select_all, exists_row, update_rows, delete_rows, first_row, order_rows, limit_rows, skip_rows,
}
use lala_search.Models.History.{
  ActionType, EntityType, action_text, entity_text, Snapshot, ActionRecord,
}
use lala_search.World.{
  Database, Env, M, pure, raise, query_failed, now, draw_uuid, fetch, write, write_if, ◌>>=◌, ◌>>◌,
}
use lala_search.AuthDb.Users.{tenant_exists, user_exists}
use lala_search.Crawl.Queue.{DbClient}

abbrev pub has_action_id : ℕ → ActionRecord → Bool
has_action_id action_id r = r.action_id == action_id

-- ORDER BY performed_at DESC
abbrev pub is_later : ActionRecord → ActionRecord → Bool
is_later r s = ltb s.performed_at r.performed_at

abbrev pub is_open : ℕ → ActionRecord → Bool
is_open tenant_id r = (r.tenant_id == tenant_id) && is_none r.rolled_back_at

abbrev pub is_undoable : ℕ → ActionRecord → Bool
is_undoable tenant_id r = is_open tenant_id r && not (text_eq r.action_type (codes "rollback"))

abbrev pub is_redoable : ℕ → ActionRecord → Bool
is_redoable tenant_id r = is_open tenant_id r && text_eq r.action_type (codes "rollback")

abbrev pub set_action_history : (List ActionRecord → List ActionRecord) → Database → Database
set_action_history f d = record d {
  site = record (d.site) { action_history = f d.site.action_history };
}

-- What the foreign keys of an optional column ask for
abbrev pub known_if_some : (ℕ → Bool) → Option ℕ → Bool
known_if_some known none = true
known_if_some known (some i) = known i

abbrev pub refers_to : ℕ → Option ℕ → Bool
refers_to action_id none = false
refers_to action_id (some i) = i == action_id

module _ (e : Env) where
  unfoldable pub mark_action_rolled_back : ℕ → M (Unit {0})
  mark_action_rolled_back action_id = write e (λ t. set_action_history (
      update_rows (λ r. has_action_id action_id r && is_none r.rolled_back_at)
        (λ r. record r { rolled_back_at = some t })))

  unfoldable pub hard_delete_action : ℕ → M (Unit {0})
  hard_delete_action action_id =
      write_if e
        (λ d. not (
          exists_row (λ (r : ActionRecord). refers_to action_id r.rollback_of)
            d.site.action_history))
        (λ t. set_action_history (delete_rows (has_action_id action_id)))

  unfoldable pub insert_action : ActionRecord → M ActionRecord
  insert_action row = do
    write_if e
        (λ d.
          tenant_exists row.tenant_id d
          && known_if_some (λ i. user_exists i d) row.performed_by
          && known_if_some (λ i. exists_row (has_action_id i) d.site.action_history) row.rollback_of
          && not (exists_row (has_action_id row.action_id) d.site.action_history))
        (λ t. set_action_history (λ rows. rows ++ row ∷ []))
    pure row

  module _ (client : DbClient) where
    unfoldable pub record_action :
        EntityType
        → ActionType
        → Text
        → Option ℕ
        → Option Snapshot
        → Option Snapshot
        → Text
        → Option ℕ
        → M ActionRecord
    record_action entity_type action_type entity_id performed_by before_state after_state
          description rollback_of =
        do
          action_id ← draw_uuid e
          time ← now e
          insert_action (record {
            action_id = action_id;
            tenant_id = client.tenant_id;
            performed_by = performed_by;
            performed_at = time;
            rolled_back_at = none;
            rollback_of = rollback_of;
            entity_type = entity_text entity_type;
            action_type = action_text action_type;
            entity_id = entity_id;
            before_state = before_state;
            after_state = after_state;
            description = description;
          })

    unfoldable pub get_last_undoable_action : M (Option ActionRecord)
    get_last_undoable_action =
        fetch e (λ d.
          first_row is_later (select_all (is_undoable client.tenant_id) d.site.action_history))

    unfoldable pub get_last_redoable_action : M (Option ActionRecord)
    get_last_redoable_action =
        fetch e (λ d.
          first_row is_later (select_all (is_redoable client.tenant_id) d.site.action_history))

    -- A negative LIMIT or OFFSET is an error of the query.
    unfoldable pub list_action_history : ℤ → ℤ → M (List ActionRecord)
    list_action_history (negsuc n) offset = raise query_failed
    list_action_history (pos limit) (negsuc n) = raise query_failed
    list_action_history (pos limit) (pos offset) = fetch e (λ d. limit_rows limit (
        skip_rows offset (
          order_rows is_later
            (select_all (λ r. r.tenant_id == client.tenant_id) d.site.action_history))))
