-- ===== src/Handlers/Jobs/SubJob.antt =====
-- The end of a sub-job.
use tork.Prelude.{◌+◌, ◌≡◌, arith, some, ◌++◌, ◌∷◌, [], String, str_eq, false, Bool}
use tork.Task.{Task, TaskState}
use tork.Job.{Job, JobState}
use tork.Eval
use tork.Eval.{evaluate_template}
use tork.Exec.{World, Env, task_message}
use tork.Broker.Queues.{queue_completed}
use tork.Scheduler.Common.{as_map}
use tork.Datastore.{find_row, job_key, task_key, update_job_returning, get_task}
use tork.Handlers.States.{is_under_way}
use tork.Handlers.Jobs.{complete_job, parent_done}

module _ (env : Env) (j u : Job) (parent : Task) (w : World)
    (found : find_row job_key j.id w.db.jobs ≡ some u)
    (under_way : is_under_way u.state ≡ Bool.true) (has_parent : str_eq j.parent_id "" ≡ false)
    (parent_found : find_row task_key j.parent_id w.db.tasks ≡ some parent) where
  -- Where a sub-job is under way, its output cannot be evaluated and its parent task is found, the
  -- parent task is sent, marked as FAILED and with the error, to the queue of completed tasks, and
  -- to no other.
  pub complete_job-bad_output :
      (e : String)
      → evaluate_template env.evaluator j.output (as_map j.context) ≡ Eval.Result.err e
      → (p : Task) × ((complete_job env j w).1.sent ≡ w.sent ++ task_message queue_completed p ∷ [])
        × (p.id ≡ parent.id)
        × (p.state ≡ TaskState.failed)
        × (p.error ≡ e)
  unfolding complete_job update_job_returning get_task
  complete_job-bad_output e h = (
    parent_done (record j { state = JobState.failed; error = e }) (env.now (w.readings + 1)) parent,
    ground arith,
    ground arith,
    ground arith,
    ground arith,
  )
