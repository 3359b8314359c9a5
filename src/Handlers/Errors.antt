-- ===== src/Handlers/Errors.antt =====
-- internal/coordinator/handlers/error.go, with no middleware
pub mod Exhausted
pub mod Retry
use tork.Prelude.{◌+◌, String, Bool, false, ◌&&◌, Option, none, some, ltb, if◌then◌else◌}
use tork.User.{Time}
use tork.Task.{TaskState, TaskRetry, is_active, Task}
use tork.Task.Clone
use tork.Job.{JobState, Job}
use tork.Eval.{evaluate_task}
use tork.Broker.Queues.{queue_pending}
use tork.Scheduler.Common.{as_map}
use tork.Exec.{Env, M, evaluation_error, pure, fail, ◌>>=◌, ◌>>◌, time_now, new_uuid, publish_task}
use tork.Datastore.{get_job, update_task, create_task}
use tork.Handlers.States.{is_under_way}
use tork.Handlers.Jobs
use tork.Handlers.Jobs.{state_change, progress}

-- `t.Retry != nil && t.Retry.Attempts < t.Retry.Limit`
unfoldable pub has_attempts : Option TaskRetry → Bool
has_attempts none = false
has_attempts (some r) = ltb r.attempts r.limit

one_more : Option TaskRetry → Option TaskRetry
one_more none = none
one_more (some r) = some (record r { attempts = r.attempts + 1 })

-- The task that is tried next, before its evaluation.
unfoldable pub retry_of : Task → Time → String → Task
unfolding one_more
retry_of t now id =
    let rt = Clone.clone t in
    record rt {
      info = record rt.info {
        id = id;
        created_at = some now;
        retry = one_more rt.retry;
        state = TaskState.pending;
        error = "";
        failed_at = none;
      };
    }

-- The update of the row of a failed task.
unfoldable pub fail_row : Task → Task → Task
unfolding is_active
fail_row t u =
    if is_active u
    then record u {
      info = record u.info { state = TaskState.failed; failed_at = t.failed_at; error = t.error };
    }
    else u

module _ (env : Env) where
  unfoldable pub retry_task : Job → Task → M (Unit {0})
  retry_task j t = do
    now ← time_now env
    id ← new_uuid env
    let (rt, failure) = evaluate_task env.evaluator (as_map j.context) (retry_of t now id)
    elim failure [
      | some e ↦ fail (evaluation_error e)
      | none ↦ do create_task env rt; publish_task queue_pending rt
    ]

  unfoldable pub handle : Task → M (Unit {0})
  unfolding fail_row has_attempts
  handle t = do
    j ← get_job t.job_id
    now ← time_now env
    let t' = record t { info = record t.info { failed_at = some now } }
    update_task t.id λ u. pure (fail_row t' u)
    if is_under_way j.state && has_attempts t'.retry
        then retry_task j t'
        else Jobs.handle env state_change
            (record j { state = JobState.failed; failed_at = t'.failed_at })
