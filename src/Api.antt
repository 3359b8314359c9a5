-- ===== src/Api.antt =====
-- internal/coordinator/api/api.go: what the requests of clients do, between the decoding of their
-- bodies and the encoding of the answers. An answer other than success is its HTTP status.
use tork.Prelude.{
  ℕ, ◌+◌, String, Bool, true, false, not, ◌&&◌, ◌||◌, Option, none, some, List, [], ◌∷◌, length,
  leb, ltb, str_eq, if◌then◌else◌,
}
use tork.User.{User}
use tork.Task.{TaskLogPart, Task}
use tork.Job.{JobState, ScheduledJobState, Job, ScheduledJob, JobSummary}
use tork.Eval
use tork.Exec.{
  World, Env, M, Error, invalid_input, schedule_message, pure, fail, ensure, ◌>>=◌, ◌>>◌, publish,
  publish_job,
}
use tork.Handlers.States.{is_running, is_scheduled, is_failed, is_cancelled}
use tork.Datastore.{get_job, get_task, create_job}
use tork.Datastore.Users.{get_user, create_user}
use tork.Datastore.Scheduled.{
  create_scheduled_job, get_scheduled_job, update_scheduled_job, delete_scheduled_job,
}
use tork.Datastore.Paging.{Page}
use tork.Datastore.Logs.{Search, get_task_log_parts, get_job_log_parts}
use tork.Datastore.Listing.{ScheduledJobSummary, get_jobs, get_scheduled_jobs}
use tork.Input.{JobInput, ScheduledJobInput}
use tork.Input.ToJob.{to_job, to_scheduled_job}
pub mod Guards

abbrev pub topic_scheduled_job : String
topic_scheduled_job = "scheduled.job"

-- The body of an answer, or a status.
pub data Reply (A : Type 0) : Type 0 where
  reply : A → Reply A
  http_error : ℕ → Reply A

abbrev pub bad_request : ℕ
bad_request = 400

abbrev pub not_found : ℕ
not_found = 404

-- An error of `m` is answered by the status.
unfoldable pub or_status : {A : Type 0} → ℕ → M A → M (Reply A)
or_status status m w =
    let (r, v) = m w in
    elim r [
      | Eval.Result.ok a ↦ (Eval.Result.ok (Reply.reply a), v)
      | Eval.Result.err e ↦ (Eval.Result.ok (Reply.http_error status), v)
    ]

-- Go on with the body, or answer the status at once.
unfoldable pub after_reply : {A B : Type 0} → Reply A → (A → M (Reply B)) → M (Reply B)
after_reply (Reply.reply a) next = next a
after_reply (Reply.http_error status) next = pure (Reply.http_error status)

unfoldable pub refuse : {B : Type 0} → Bool → ℕ → M (Reply B) → M (Reply B)
refuse true status next = pure (Reply.http_error status)
refuse false status next = next

-- The user of a request, if it has one, is who creates the job.
user_of_request : Option String → M (Option User)
user_of_request none = pure none
user_of_request (some username) = do u ← get_user username; pure (some u)

module _ (env : Env) where
  -- SubmitJob; `valid` is whether the validation of the input reports nothing
  unfoldable pub submit_job : Bool → Option String → JobInput → M Job
  unfolding user_of_request
  submit_job valid username ji = do
    ensure valid invalid_input
    j ← to_job env ji
    creator ← user_of_request username
    created ← create_job env (record j { created_by = creator })
    publish_job created
    pure created

  -- submitScheduledJob
  unfoldable pub submit_scheduled_job : Bool → Option String → ScheduledJobInput → M ScheduledJob
  unfolding user_of_request
  submit_scheduled_job valid username ji = do
    ensure valid invalid_input
    s ← to_scheduled_job env ji
    creator ← user_of_request username
    created ← create_scheduled_job env (record s { created_by = creator })
    publish (schedule_message topic_scheduled_job created)
    pure created

-- restartJob
unfoldable pub restart_job : String → M (Reply (Unit {0}))
unfolding or_status after_reply refuse
restart_job id = do
  found ← or_status not_found (get_job id)
  after_reply found λ j.
      refuse (not (is_failed j.state) && not (is_cancelled j.state)) bad_request (
        refuse (ltb (length j.tasks) j.position) bad_request
          (publish_job (record j { state = JobState.restart }) >> pure (Reply.reply tt)))

-- cancelJob
unfoldable pub cancel_job : String → M (Reply (Unit {0}))
unfolding or_status after_reply refuse
cancel_job id = do
  found ← or_status not_found (get_job id)
  after_reply found λ j.
      refuse (not (is_running j.state) && not (is_scheduled j.state)) bad_request
        (publish_job (record j { state = JobState.cancelled }) >> pure (Reply.reply tt))

is_active_schedule : ScheduledJobState → Bool
is_active_schedule ScheduledJobState.active = true
is_active_schedule s = false

is_paused_schedule : ScheduledJobState → Bool
is_paused_schedule ScheduledJobState.paused = true
is_paused_schedule s = false

-- The row gets the state, and the schedulers of the coordinators are told.
set_schedule : ScheduledJob → ScheduledJobState → M (Reply (Unit {0}))
set_schedule s state = do
  update_scheduled_job s.id λ u. pure (record u { state = state })
  publish (schedule_message topic_scheduled_job (record s { state = state }))
  pure (Reply.reply tt)

-- pauseScheduledJob
unfoldable pub pause_scheduled_job : String → M (Reply (Unit {0}))
unfolding or_status after_reply refuse is_active_schedule set_schedule
pause_scheduled_job id = do
  found ← or_status not_found (get_scheduled_job id)
  after_reply found λ s.
      refuse (not (is_active_schedule s.state)) bad_request
        (set_schedule s ScheduledJobState.paused)

-- resumeScheduledJob
unfoldable pub resume_scheduled_job : String → M (Reply (Unit {0}))
unfolding or_status after_reply refuse is_paused_schedule set_schedule
resume_scheduled_job id = do
  found ← or_status not_found (get_scheduled_job id)
  after_reply found λ s.
      refuse (not (is_paused_schedule s.state)) bad_request
        (set_schedule s ScheduledJobState.active)

-- deleteScheduledJob
unfoldable pub remove_scheduled_job : String → M (Reply (Unit {0}))
unfolding or_status after_reply is_active_schedule
remove_scheduled_job id = do
  found ← or_status not_found (get_scheduled_job id)
  after_reply found λ s. (do
    delete_scheduled_job id
    (if is_active_schedule s.state
        then publish
            (schedule_message topic_scheduled_job (record s { state = ScheduledJobState.paused }))
        else pure tt)
    pure (Reply.reply tt))

-- `strconv.Atoi` of a parameter of the query, or of its default if it is empty: no number, a number
-- below zero, or a number.
pub data Parsed : Type 0 where
  no_number below_zero : Parsed
  number : ℕ → Parsed

-- The number of a page: 1 at least.
unfoldable pub page_param : Parsed → Option ℕ
page_param no_number = none
page_param below_zero = some 1
page_param (number n) = if ltb n 1 then some 1 else some n

-- The size of a page: between 1 and `most`.
unfoldable pub size_param : ℕ → Parsed → Option ℕ
size_param most no_number = none
size_param most below_zero = some 1
size_param most (number n) = if ltb n 1 then some 1 else if ltb most n then some most else some n

abbrev pub max_list_page_size : ℕ
max_list_page_size = 20

abbrev pub max_log_page_size : ℕ
max_log_page_size = 100

unfoldable pub with_page : {A : Type 0} → ℕ → Parsed → Parsed → (ℕ → ℕ → M (Reply A)) → M (Reply A)
unfolding page_param size_param
with_page most ps si next = elim (page_param ps) [
  | none ↦ pure (Reply.http_error not_found)
  | some page ↦ elim (size_param most si) [
    | none ↦ pure (Reply.http_error not_found)
    | some size ↦ next page size
  ]
]

module _ (search : Search) (state_text : JobState → String) where
  -- listJobs
  unfoldable pub list_jobs : String → String → Parsed → Parsed → M (Reply (Page JobSummary))
  unfolding with_page or_status
  list_jobs username q ps si =
      with_page max_list_page_size ps si
        λ page size. or_status 500 (get_jobs search state_text username q page size)

  -- getJobLog
  unfoldable pub get_job_log : String → String → Parsed → Parsed → M (Reply (Page TaskLogPart))
  unfolding with_page or_status after_reply
  get_job_log id q ps si = with_page max_log_page_size ps si λ page size. (do
    found ← or_status not_found (get_job id)
    after_reply found λ j. or_status not_found (get_job_log_parts search id q page size))

  -- getTaskLog
  unfoldable pub get_task_log : String → String → Parsed → Parsed → M (Reply (Page TaskLogPart))
  unfolding with_page or_status after_reply
  get_task_log id q ps si = with_page max_log_page_size ps si λ page size. (do
    found ← or_status not_found (get_task id)
    after_reply found λ t. or_status not_found (get_task_log_parts search id q page size))

-- listScheduledJobs
unfoldable pub list_scheduled_jobs : String → Parsed → Parsed → M (Reply (Page ScheduledJobSummary))
unfolding with_page or_status
list_scheduled_jobs username ps si =
    with_page max_list_page_size ps si
      λ page size. or_status 500 (get_scheduled_jobs username page size)
