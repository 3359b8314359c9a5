-- ===== src/Handlers/Jobs/Lifecycle.antt =====
-- The state of the row of a job under the handler of jobs.
use tork.Prelude.{◌≡◌, ◌≢◌, refl, arith, some}
use tork.Job.{Job, JobState}
use tork.Exec.{World, Env}
use tork.Datastore.{
  set_jobs, write_row, find_row, job_key, update_job, update_job_returning, get_task, get_job,
}
use tork.Datastore.Rows.{find_row-write_row_self, key-find_row}
use tork.Handlers.Cancel
use tork.Handlers.Cancel.{cancel_active_tasks, cancel_parent}
use tork.Handlers.Cancel.Frame.{cancel_active_tasks-jobs, cancel_parent-jobs}
use tork.Handlers.Jobs
use tork.Handlers.Jobs.{
  fail_job, complete_job, restart_job, mark_job_as_running, EventType, state_change, progress, read,
}

-- The row of the job is complete, with the result of the row before.
abbrev pub StaysCompleted : Job → Job → World → Type 0
StaysCompleted j u w =
    (u' : Job) × (find_row job_key j.id w.db.jobs ≡ some u')
    × (u'.state ≡ JobState.completed)
    × (u'.result ≡ u.result)

module _ (env : Env) (j u : Job) (w : World) (found : find_row job_key j.id w.db.jobs ≡ some u)
    (done : u.state ≡ JobState.completed) where
  -- The world after an update of the row that changes nothing.
  abbrev same_row : World
  same_row = set_jobs (write_row job_key u.id u w.db.jobs) w

  same_row-found : find_row job_key j.id same_row.db.jobs ≡ some u
  same_row-found = ground (
    arith,
    key-find_row job_key j.id w.db.jobs u,
    find_row-write_row_self job_key j.id u w.db.jobs u,
  )

  cancel-completed : StaysCompleted j u (Cancel.handle j w).1
  unfolding Cancel.handle update_job
  cancel-completed = (
    u,
    ground (
      arith,
      same_row-found,
      cancel_parent-jobs j same_row,
      cancel_active_tasks-jobs j.id (cancel_parent j same_row).1,
    ),
    done,
    refl,
  )

  fail-completed : StaysCompleted j u (fail_job j w).1
  unfolding fail_job update_job get_task get_job
  fail-completed =
      (u, ground (arith, same_row-found, cancel_active_tasks-jobs j.id same_row), done, refl)

  complete-completed : StaysCompleted j u (complete_job env j w).1
  unfolding complete_job update_job_returning
  complete-completed = (u, ground arith, done, refl)

  restart-completed : StaysCompleted j u (restart_job env j w).1
  unfolding restart_job update_job
  restart-completed = (u, ground arith, done, refl)

  running-completed : StaysCompleted j u (mark_job_as_running j w).1
  unfolding mark_job_as_running update_job
  running-completed = (
    u,
    ground (
      arith,
      find_row-write_row_self job_key j.id u w.db.jobs u,
      key-find_row job_key j.id w.db.jobs u,
    ),
    done,
    refl,
  )

  dispatch-completed :
      (s : JobState) → s ≢ JobState.pending → StaysCompleted j u (Jobs.dispatch env s j w).1
  unfolding Jobs.dispatch
  dispatch-completed JobState.pending h = absurd (h refl)
  dispatch-completed JobState.cancelled h = cancel-completed
  dispatch-completed JobState.restart h = restart-completed
  dispatch-completed JobState.completed h = complete-completed
  dispatch-completed JobState.failed h = fail-completed
  dispatch-completed JobState.running h = running-completed
  dispatch-completed _ h = (u, found, done, refl)

  -- A job that is complete stays so, with its result, whatever message about it arrives and however
  -- its handling ends, unless the message is the one that starts the job.
  pub handle-completed :
      (et : EventType) → j.state ≢ JobState.pending → StaysCompleted j u (Jobs.handle env et j w).1
  unfolding Jobs.handle
  handle-completed state_change h = dispatch-completed j.state h
  handle-completed progress h = (u, found, done, refl)
  handle-completed read h = (u, found, done, refl)
