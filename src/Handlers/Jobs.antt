-- ===== src/Handlers/Jobs.antt =====
-- internal/coordinator/handlers/job.go, with no middleware
pub mod Lifecycle
pub mod SubJob
pub mod Restart
use tork.Handlers.States.{is_scheduled, is_failed, is_cancelled, is_under_way, task_failed}
use tork.Handlers.Pending
use tork.Handlers.Cancel
use tork.Handlers.Cancel.{cancel_active_tasks}
use tork.Handlers.Fire.{task_at, place_task, evaluate_or_fail}
use tork.Prelude.{◌||◌, Option, none, some, str_eq, if◌then◌else◌}
use tork.User.{Time}
use tork.Task.{TaskState, Task}
use tork.Job.{JobState, Job}
use tork.Eval
use tork.Eval.{evaluate_task, evaluate_template}
use tork.Broker.Queues.{
  queue_pending, queue_completed, queue_error, topic_job_completed, topic_job_failed,
}
use tork.Scheduler.Common.{as_map}
use tork.Exec.{
  Env, M, invalid_job_state, cannot_complete_job, cannot_restart_job, pure, fail, ensure, ◌>>=◌,
  ◌>>◌, time_now, new_uuid, publish_task, publish_event,
}
use tork.Datastore.{get_task, get_job, update_job, update_job_returning, create_task}

-- The events of middleware/job.
pub data EventType : Type 0 where
  state_change progress read : EventType

unfoldable pub fail_job : Job → M (Unit {0})
fail_job j = do
  update_job j.id λ u. pure (
      if is_under_way u.state
      then record u { state = JobState.failed; failed_at = j.failed_at }
      else u)
  if str_eq j.parent_id ""
      then (do
        cancel_active_tasks j.id
        k ← get_job j.id
        if is_failed k.state then publish_event topic_job_failed k else pure tt)
      else (do
        parent ← get_task j.parent_id
        publish_task queue_error (record parent {
          info = record parent.info {
            state = TaskState.failed;
            failed_at = j.failed_at;
            error = j.error;
          };
        }))

unfoldable pub delete_at_or : Option Time → Job → Job
delete_at_or d j = elim d [ none ↦ j | some time ↦ record j { delete_at = some time } ]

-- The parent task as the end of a sub-job leaves it.
unfoldable pub parent_done : Job → Time → Task → Task
parent_done j now parent =
    if is_failed j.state
    then record parent {
      info = record parent.info { state = TaskState.failed; failed_at = some now; error = j.error };
    }
    else record parent {
      info = record parent.info {
        state = TaskState.completed;
        completed_at = some now;
        result = j.result;
      };
    }

unfoldable pub mark_job_as_running : Job → M (Unit {0})
mark_job_as_running j = update_job j.id λ u.
    pure
      (if is_scheduled u.state then record u { state = JobState.running; failed_at = none } else u)

module _ (env : Env) where
  unfoldable pub start_job : Job → M (Unit {0})
  unfolding task_at place_task
  start_job j = do
    now ← time_now env
    first ← task_at j 1
    id ← new_uuid env
    let t = evaluate_or_fail env j now (place_task j 1 now id first)
    create_task env t
    update_job j.id λ u. (do
      n ← time_now env
      pure (record u { state = JobState.scheduled; started_at = some n; position = 1 }))
    if task_failed t.state
        then (do
          n ← time_now env
          fail_job (record j { failed_at = some n; state = JobState.failed }))
        else Pending.handle env t

  -- The time at which a completed job is to be deleted; a duration that does not parse is ignored.
  unfoldable pub deletion_time : Job → M (Option Time)
  deletion_time j = elim j.auto_delete [
    | none ↦ pure none
    | some a ↦
        if str_eq a.after ""
        then pure none
        else (do now ← time_now env; pure (env.deadline now a.after))
  ]

  -- The update of the row and of the job at hand.
  unfoldable pub finish_job : Job → Job → M (Job × Job)
  unfolding deletion_time delete_at_or
  finish_job j u = do
    ensure (is_under_way u.state) (cannot_complete_job u.state)
    now ← time_now env
    elim (evaluate_template env.evaluator j.output (as_map j.context)) [
      | Eval.Result.err e ↦ pure (
        record u { state = JobState.failed; failed_at = some now; error = e },
        record j { state = JobState.failed; error = e },
      )
      | Eval.Result.ok r ↦ do
        d ← deletion_time j
        pure (
          delete_at_or d
              (record u { state = JobState.completed; completed_at = some now; result = r }),
          delete_at_or d (record j { state = JobState.completed; result = r }),
        )
    ]

  unfoldable pub complete_job : Job → M (Unit {0})
  unfolding finish_job parent_done
  complete_job j = do
    j' ← update_job_returning j.id (finish_job j)
    if str_eq j'.parent_id ""
        then publish_event (if is_failed j'.state then topic_job_failed else topic_job_completed) j'
        else (do
          parent ← get_task j'.parent_id
          now ← time_now env
          publish_task queue_completed (parent_done j' now parent))

  unfoldable pub restart_job : Job → M (Unit {0})
  unfolding task_at place_task
  restart_job j = do
    update_job j.id λ u. (do
      ensure (is_failed u.state || is_cancelled u.state) (cannot_restart_job j.state)
      pure (record u { state = JobState.running; failed_at = none }))
    now ← time_now env
    current ← task_at j j.position
    id ← new_uuid env
    let t = evaluate_or_fail env j now (place_task j j.position now id current)
    create_task env t
    publish_task queue_pending t

  unfoldable pub dispatch : JobState → Job → M (Unit {0})
  dispatch JobState.pending j = start_job j
  dispatch JobState.cancelled j = Cancel.handle j
  dispatch JobState.restart j = restart_job j
  dispatch JobState.completed j = complete_job j
  dispatch JobState.failed j = fail_job j
  dispatch JobState.running j = mark_job_as_running j
  dispatch s j = fail (invalid_job_state s)

  unfoldable pub handle : EventType → Job → M (Unit {0})
  unfolding dispatch
  handle state_change j = dispatch j.state j
  handle _ j = pure tt
