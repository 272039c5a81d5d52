-- ===== src/Http/Undo.antt =====
-- lala-agent/src/app.rs: the handlers of undo and redo.
use lala_search.Prelude.{ℕ, Option, none}
use lala_search.Prelude.Text.{Text}
use lala_search.Models.History.{ActionRecord}
use lala_search.World.{Env, M, pure, or_raise, as_status, status, ◌>>=◌}
use lala_search.Crawl.Queue.{DbClient}
use lala_search.Site.History.{get_last_undoable_action, get_last_redoable_action}
use lala_search.Site.Rollback.{rollback_action}
use lala_search.Http.Access.{AppState, Request, tenant_db}

pub record UndoRedoState : Type 0 where
  pub undoable : Option ActionRecord
  pub redoable : Option ActionRecord

module _ (parse_uuid : Text → Option ℕ) (e : Env) where
  module _ (db : DbClient) where
    unfoldable pub undo_redo_state : M UndoRedoState
    undo_redo_state = do
      undoable ← as_status 500 (get_last_undoable_action e db)
      redoable ← as_status 500 (get_last_redoable_action e db)
      pure (record { undoable = undoable; redoable = redoable })

    unfoldable pub undo_last : M ActionRecord
    undo_last = do
      found ← as_status 500 (get_last_undoable_action e db)
      action ← or_raise (status 404) found
      as_status 400 (rollback_action parse_uuid e db action none)

    unfoldable pub redo_last : M ActionRecord
    redo_last = do
      found ← as_status 500 (get_last_redoable_action e db)
      action ← or_raise (status 404) found
      as_status 400 (rollback_action parse_uuid e db action none)

  module _ (state : AppState) (request : Request) where
    unfoldable pub undo_redo_state_handler : M UndoRedoState
    undo_redo_state_handler = do db ← tenant_db parse_uuid e state request; undo_redo_state db

    unfoldable pub undo_last_handler : M ActionRecord
    undo_last_handler = do db ← tenant_db parse_uuid e state request; undo_last db

    unfoldable pub redo_last_handler : M ActionRecord
    redo_last_handler = do db ← tenant_db parse_uuid e state request; redo_last db
