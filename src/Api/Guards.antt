-- ===== src/Api/Guards.antt =====
-- What requests are let through.
use tork.Prelude.{if◌then◌else◌, ℕ, ◌≤◌, String, some, [], ◌∷◌, ◌++◌, ◌≡◌, arith}
use tork.Job.{JobState, Job}
use tork.Exec.{World, ok, job_message}
use tork.Datastore.{find_row, job_key, get_job, execution_of}
use tork.Handlers.States.{is_under_way}
use tork.Api.{Reply, bad_request, cancel_job, size_param, Parsed, no_number, below_zero, number}

-- The request to cancel a job sends one message if the job is under way, and otherwise is refused and
-- changes nothing.
pub cancel_job-sent :
    (id : String) (j : Job) (w : World)
    → find_row job_key id w.db.jobs ≡ some j
    → let read = record j { execution = execution_of id w.db.tasks } in
      ((cancel_job id w).0
        ≡ ok (if is_under_way j.state then Reply.reply tt else Reply.http_error bad_request))
      × ((cancel_job id w).1.db ≡ w.db)
      × ((cancel_job id w).1.sent ≡ (
          if is_under_way j.state
          then w.sent ++ job_message (record read { state = JobState.cancelled }) ∷ []
          else w.sent))
unfolding cancel_job get_job
cancel_job-sent id j w found = ground (arith, found)

-- A page is never larger than the most that is allowed, and never empty by its size.
pub size_param-le :
    (most n : ℕ) (p : Parsed) → 1 ≤ most → size_param most p ≡ some n → (1 ≤ n) × (n ≤ most)
unfolding size_param
size_param-le most n no_number room given = ground (arith, room)
size_param-le most n below_zero room given = ground (arith, room)
size_param-le most n (number k) room given = ground (arith, room)
