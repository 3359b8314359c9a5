-- ===== src/Middleware/Chosen.antt =====
-- Which webhooks of a job are called.
use tork.Prelude.{String, Bool, ◌||◌, Option, ◌≡◌, arith, str_eq, eq_iff}
use tork.Task.{Webhook}
use tork.Job.{Job, JobSummary}
use tork.Handlers.Jobs.{state_change, progress}
use tork.Middleware.{job_webhook_wants, event_job_state_change, event_job_progress, event_default}

-- A webhook without a condition is called for a change of state exactly if it asks for changes of state
-- or names no event, and for progress exactly if it asks for progress.
pub job_webhook_wants-event :
    (holds : String → JobSummary → Option Bool) (j : Job) (wh : Webhook)
    → wh.if_ ≡ ""
    → (job_webhook_wants holds state_change j wh
        ≡ (str_eq wh.event event_job_state_change || str_eq wh.event event_default))
      × (job_webhook_wants holds progress j wh ≡ str_eq wh.event event_job_progress)
unfolding job_webhook_wants
job_webhook_wants-event holds j wh always = ground (
  arith,
  always,
  eq_iff wh.if_ "",
  eq_iff wh.event event_job_state_change,
  eq_iff wh.event event_job_progress,
  eq_iff wh.event event_default,
)
