-- ===== src/Handlers/Errors/Exhausted.antt =====
-- Failures that are not tried again.
use tork.Prelude.{◌≤◌, refl, Option, none, ◌+◌, ◌≡◌, ap, ◌∙◌, arith, some, true, false}
use tork.Task.{TaskRetry, Task}
use tork.Job.{Job, JobState}
use tork.Exec.{World, Env}
use tork.Datastore.{
  find_row, execution_of, job_key, task_key, write_row, set_jobs, set_tasks, written_task,
  update_task, update_job, get_task, get_job,
}
use tork.Datastore.Rows.{find_row-write_row_self, key-find_row}
use tork.Handlers.States.{is_under_way}
use tork.Handlers.Cancel.Frame.{cancel_active_tasks-jobs}
use tork.Handlers.Jobs
use tork.Handlers.Jobs.{fail_job}
use tork.Handlers.Errors.{handle, fail_row, has_attempts}

-- The row of a job that fails while it is under way is FAILED from then on, also where a task of the
-- job cannot be cancelled.
pub fail_job-failed :
    (j u : Job) (w : World)
    → find_row job_key j.id w.db.jobs ≡ some u
    → is_under_way u.state ≡ true
    → find_row job_key j.id (fail_job j w).1.db.jobs
      ≡ some (record u { state = JobState.failed; failed_at = j.failed_at })
unfolding fail_job update_job get_task get_job
fail_job-failed j u w found under_way =
    let row : Job = record u { state = JobState.failed; failed_at = j.failed_at } in
    let key = key-find_row job_key j.id w.db.jobs u found in
    let w1 = set_jobs (write_row job_key j.id row w.db.jobs) w in
    ground (
      arith,
      key,
      find_row-write_row_self job_key j.id row w.db.jobs u key found,
      cancel_active_tasks-jobs j.id w1,
    )

-- A policy with no attempts left: there is none, or all that it allows were made.
pub data IsSpent : Option TaskRetry → Type 0 where
  never : IsSpent none
  spent : (r : TaskRetry) → r.limit ≤ r.attempts → IsSpent (some r)

IsSpent-has_attempts : (o : Option TaskRetry) → IsSpent o → has_attempts o ≡ false
unfolding has_attempts
IsSpent-has_attempts _ never = refl
IsSpent-has_attempts _ (spent r h) = ground (arith, h)

-- A failed task with no policy of retries, or with as many attempts as it allows made, whose row and
-- job are found, makes the row of the job
-- FAILED, if the job is under way.
pub handle-exhausted :
    (env : Env) (j : Job) (t u : Task) (w : World)
    → find_row job_key t.job_id w.db.jobs ≡ some j
    → find_row task_key t.id w.db.tasks ≡ some u
    → is_under_way j.state ≡ true
    → IsSpent t.retry
    → find_row job_key t.job_id (handle env t w).1.db.jobs
      ≡ some (record j { state = JobState.failed; failed_at = some (env.now w.readings) })
unfolding handle get_job update_task Jobs.handle
handle-exhausted env j t u w jf tf under_way none_left =
    let h = IsSpent-has_attempts t.retry none_left in
    let key = key-find_row job_key t.job_id w.db.jobs j jf in
    let t' : Task = record t { info = record t.info { failed_at = some (env.now w.readings) } } in
    let j' : Job = record j {
      execution = execution_of t.job_id w.db.tasks;
      state = JobState.failed;
      failed_at = some (env.now w.readings);
    } in
    let row = written_task u (fail_row t' u) in
    let w1 =
      set_tasks (write_row task_key row.id row w.db.tasks)
        (record w { readings = w.readings + 1 }) in
    let found : find_row job_key j.id w.db.jobs ≡ some j =
      ap (λ k. find_row job_key k w.db.jobs) key ∙ jf in
    let failed = fail_job-failed j' j w1 found under_way in ground (arith, key, failed, h)
