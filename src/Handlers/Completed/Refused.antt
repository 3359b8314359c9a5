-- ===== src/Handlers/Completed/Refused.antt =====
-- Completions that are refused.
use tork.Prelude.{ℕ, ◌≡◌, arith, some, false}
use tork.Task.{Task}
use tork.Exec.{World, Env, err, with_tx, cannot_complete_task, invalid_completion_state}
use tork.Datastore.{find_row, task_key, update_task}
use tork.Handlers.States.{is_completable}
use tork.Handlers.Completed.{handle, is_completion, complete_top_level_task, advance}

-- A task that is neither COMPLETED nor SKIPPED is refused, with the tables and the broker untouched.
pub handle-wrong_state :
    (env : Env) (fuel : ℕ) (t : Task) (w : World)
    → is_completion t.state ≡ false
    → ((handle env fuel t w).0 ≡ err (invalid_completion_state t.state))
      × ((handle env fuel t w).1.db ≡ w.db)
      × ((handle env fuel t w).1.sent ≡ w.sent)
unfolding handle
handle-wrong_state env fuel t w h = ground arith

-- A top-level task whose row is not RUNNING, SCHEDULED or SKIPPED, such as one completed before, is
-- refused, and neither its job nor any other row changes, nor is a message sent.
pub complete_top_level_task-refused :
    (env : Env) (t u : Task) (w : World)
    → find_row task_key t.id w.db.tasks ≡ some u
    → is_completable u.state ≡ false
    → ((complete_top_level_task env t w).0 ≡ err (cannot_complete_task u.state))
      × ((complete_top_level_task env t w).1.db ≡ w.db)
      × ((complete_top_level_task env t w).1.sent ≡ w.sent)
unfolding complete_top_level_task advance with_tx update_task
complete_top_level_task-refused env t u w found h = ground arith
