-- ===== src/Handlers/Errors/Retry.antt =====
-- Retries.
use tork.Prelude.{String, ◌+◌, ◌<◌, ◌≡◌, some, none, true}
use tork.Task.{Task, TaskState, TaskRetry}
use tork.Task.Clone
use tork.User.{Time}
use tork.Job.{Job}
use tork.Eval.{evaluate_task}
use tork.Exec.{World, Env}
use tork.Scheduler.Common.{as_map}
use tork.Datastore.{find_row, job_key, task_key, written_task}
use tork.Handlers.States.{is_under_way}
use tork.Handlers.Errors.{retry_of, fail_row}

abbrev as_failed : Time → String → Task → Task
as_failed now e u = record u {
  info = record u.info { state = TaskState.failed; failed_at = some now; error = e };
}

-- The row of a task that failed: one that was CREATED, PENDING, SCHEDULED or RUNNING is FAILED, and any
-- other stays.
unfoldable pub marked : Time → String → Task → Task
marked now e u = elim u.state [
  | TaskState.created ↦ as_failed now e u
  | TaskState.pending ↦ as_failed now e u
  | TaskState.scheduled ↦ as_failed now e u
  | TaskState.running ↦ as_failed now e u
  | _ ↦ u
]

module _ (env : Env) (j : Job) (t u rt : Task) (r : TaskRetry) (w : World)
    (job_found : find_row job_key t.job_id w.db.jobs ≡ some j)
    (task_found : find_row task_key t.id w.db.tasks ≡ some u)
    (under_way : is_under_way j.state ≡ true) (retries : t.retry ≡ some r)
    (left : r.attempts < r.limit)
    (evaluated : evaluate_task env.evaluator (as_map j.context) (
        retry_of
          (record t { info = record t.info { failed_at = some (env.now w.readings) } })
          (env.now (w.readings + 1))
          (env.uuid w.drawn))
      ≡ (rt, none)) where
  abbrev received : Task
  received = record t { info = record t.info { failed_at = some (env.now w.readings) } }

  -- The task that is tried next.
  abbrev again : Task
  again = retry_of received (env.now (w.readings + 1)) (env.uuid w.drawn)

  abbrev failed_row : Task
  failed_row = written_task u (fail_row received u)
