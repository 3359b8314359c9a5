-- ===== src/Handlers/Cancel/JobRow.antt =====
-- The row of a job that is cancelled.
use tork.Prelude.{◌≡◌, arith, some, if◌then◌else◌}
use tork.Job.{Job, JobState}
use tork.Exec.{World}
use tork.Datastore.{find_row, write_row, job_key, set_jobs, update_job, written_job}
use tork.Datastore.Rows.{find_row-write_row_self, key-find_row}
use tork.Handlers.States.{is_under_way}
use tork.Handlers.Cancel.{handle, cancel_parent, mark_cancelled}
use tork.Handlers.Cancel.Frame.{cancel_active_tasks-jobs, cancel_parent-jobs}

-- A cancellation makes the row of a job CANCELLED exactly if the job is under way, even when the
-- cancellation of its parent or of its tasks ends in an error.
pub handle-job_row :
    (j u : Job) (w : World)
    → find_row job_key j.id w.db.jobs ≡ some u
    → find_row job_key j.id (handle j w).1.db.jobs
      ≡ some (if is_under_way u.state then record u { state = JobState.cancelled } else u)
unfolding handle update_job mark_cancelled written_job
handle-job_row j u w found =
    let row = if is_under_way u.state then record u { state = JobState.cancelled } else u in
    let v = set_jobs (write_row job_key j.id row w.db.jobs) w in
    ground (
      arith,
      key-find_row job_key j.id w.db.jobs u,
      find_row-write_row_self job_key j.id row w.db.jobs u,
      cancel_parent-jobs j v,
      cancel_active_tasks-jobs j.id (cancel_parent j v).1,
    )
