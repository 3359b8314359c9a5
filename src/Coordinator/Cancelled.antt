-- ===== src/Coordinator/Cancelled.antt =====
-- A request to cancel a job, from the HTTP interface to the row of the job.
use tork.Prelude.{ℕ, String, true, some, [], ◌∷◌, ◌++◌, ◌≡◌, refl, ap, arith}
use tork.Job.{Job, JobState}
use tork.Exec.{World, Env, ok, job_message}
use tork.Datastore.{find_row, job_key, execution_of}
use tork.Datastore.Rows.{key-find_row}
use tork.Handlers.States.{is_under_way}
use tork.Handlers.Cancel
use tork.Handlers.Cancel.JobRow.{handle-job_row}
use tork.Handlers.Jobs
use tork.Coordinator.{receive, job_handler}
use tork.Api.{cancel_job}
use tork.Api.Guards.{cancel_job-sent}

-- The job that the request sends: the one it read, but for the state.
unfoldable pub asked : String → Job → World → Job
asked id j w = record j { execution = execution_of id w.db.tasks; state = JobState.cancelled }

module _ (env : Env) (fuel : ℕ) where
  -- A cancellation that ends with no error is all that a message about a cancelled job does.
  received :
      (j : Job) (v : World)
      → j.state ≡ JobState.cancelled
      → (Cancel.handle j v).0 ≡ ok tt
      → (receive env fuel (job_message j) v).1 ≡ (Cancel.handle j v).1
  unfolding receive job_handler Jobs.handle
  received j v told done = ground (arith, told, done)

  -- The request to cancel a job that is under way sends a message, and when the coordinator receives
  -- it, and its cancellation ends with no error, the row of the job is CANCELLED.
  pub cancel_job-receive :
      (id : String) (j : Job) (w : World)
      → find_row job_key id w.db.jobs ≡ some j
      → is_under_way j.state ≡ true
      → (Cancel.handle (asked id j w) (cancel_job id w).1).0 ≡ ok tt
      → ((cancel_job id w).1.sent ≡ w.sent ++ job_message (asked id j w) ∷ [])
        × (find_row job_key id
              (receive env fuel (job_message (asked id j w)) (cancel_job id w).1).1.db.jobs
            ≡ some (record j { state = JobState.cancelled }))
  unfolding asked
  cancel_job-receive id j w found under_way done =
      let m = asked id j w in
      let v = (cancel_job id w).1 in
      let (answered, kept, sent) = cancel_job-sent id j w found in
      let same : j.id ≡ id = key-find_row job_key id w.db.jobs j found in
      let there : find_row job_key m.id v.db.jobs ≡ some j = cc (kept, same, found) in
      (
        ground (arith, sent, under_way),
        cc (same, ap (λ x. x.db.jobs) (received m v refl done), handle-job_row m j v there),
      )
