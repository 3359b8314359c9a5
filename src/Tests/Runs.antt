-- ===== src/Tests/Runs.antt =====
-- A coordinator that receives several messages.
use mathlib.Core.Option.{some_inj}
use tork.Prelude.{some, List, [], ◌∷◌, ◌≡◌, ◌∙◌, refl, sym, ap}
use tork.Job.{JobState, Job}
use tork.Exec.{World, Message, job_message, task_message}
use tork.Broker.Queues.{queue_started, queue_completed}
use tork.Datastore.{find_row, job_key}
use tork.Moves.{MovedTo}
use tork.Moves.Starts.{IsWaiting}
use tork.Moves.Runs.{receive_all, AllFresh, receive_all-JobSteps, receive_all-completed}
use tork.Tests.Samples.{done_task, done_row, two_task_job, world_of, env}

abbrev waiting_job : Job
waiting_job = record two_task_job { state = JobState.pending }

abbrev ended_job : Job
ended_job = record two_task_job { id = "j2"; state = JobState.completed }

abbrev w : World
w = world_of (done_row ∷ []) (waiting_job ∷ ended_job ∷ [])

-- The job starts, its task starts and is complete, and a late message says that the other job runs.
abbrev messages : List Message
messages =
    job_message waiting_job
    ∷ task_message queue_started done_row
    ∷ task_message queue_completed done_task
    ∷ job_message (record ended_job { state = JobState.running })
    ∷ []

waiting_found : find_row job_key "j1" w.db.jobs ≡ some waiting_job
unfolding find_row
waiting_found = refl

ended_found : find_row job_key "j2" w.db.jobs ≡ some ended_job
unfolding find_row
ended_found = refl

still_pending : IsWaiting "j1" w.db.jobs
still_pending row found = ap (λ j. j.state) (some_inj.0 (sym found ∙ waiting_found))

all_fresh : AllFresh env 3 messages w
all_fresh = (still_pending, (tt, (tt, (tt, tt))))

receive_all-JobSteps_example : MovedTo "j1" waiting_job (receive_all env 3 messages w).db.jobs
receive_all-JobSteps_example =
    receive_all-JobSteps env 3 messages w "j1" waiting_job all_fresh waiting_found

receive_all-completed_example :
    (row' : Job) × (find_row job_key "j2" (receive_all env 3 messages w).db.jobs ≡ some row')
    × (row'.state ≡ JobState.completed)
receive_all-completed_example =
    receive_all-completed env 3 messages w "j2" ended_job all_fresh ended_found refl
