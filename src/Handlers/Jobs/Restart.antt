-- ===== src/Handlers/Jobs/Restart.antt =====
-- The restart of a job.
use tork.Prelude.{◌≡◌, arith, false, ◌||◌, some}
use tork.Job.{Job, JobState}
use tork.Exec.{World, Env, err, cannot_restart_job}
use tork.Datastore.{find_row, job_key, update_job}
use tork.Handlers.States.{is_failed, is_cancelled}
use tork.Handlers.Jobs.{restart_job, handle, state_change}

-- A message to restart a job whose row is neither FAILED nor CANCELLED is refused, with the tables and
-- the broker untouched.
pub handle-restart_refused :
    (env : Env) (j u : Job) (w : World)
    → j.state ≡ JobState.restart
    → find_row job_key j.id w.db.jobs ≡ some u
    → (is_failed u.state || is_cancelled u.state) ≡ false
    → ((handle env state_change j w).0 ≡ err (cannot_restart_job JobState.restart))
      × ((handle env state_change j w).1.db ≡ w.db)
      × ((handle env state_change j w).1.sent ≡ w.sent)
unfolding handle restart_job update_job
handle-restart_refused env j u w asked found h = ground arith
