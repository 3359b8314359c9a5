-- ===== src/Exec.antt =====
-- The actions of the coordinator: what a handler reads and changes besides its own arguments. The
-- datastore is the tables of datastore/postgres, the broker is the sequence of what was published
-- to it, and the clock and the source of identifiers are given by an `Env`.
use tork.Prelude.{ℕ, ◌+◌, String, Bool, true, false, Option, none, some, List, [], ◌∷◌, ◌++◌}
use tork.User.{Time, Role, User}
use tork.Task.{TaskState, TaskLogPart, Task}
use tork.Job.{JobState, ScheduledJobState, Job, ScheduledJob}
use tork.Node.{Node}
use tork.Eval
use tork.Eval.{Evaluator, Value}

-- The rows of the tables, the oldest first. A row of `user_roles` is a user and a role, each by
-- its identifier.
pub record Store : Type 0 where
  pub tasks : List Task
  pub jobs : List Job
  pub nodes : List Node
  pub users : List User
  pub roles : List Role
  pub user_roles : List (String × String)
  pub log_parts : List TaskLogPart
  pub scheduled_jobs : List ScheduledJob

-- A task on a named queue, a job on the queue of jobs, a job or a scheduled job on a topic of
-- events, a node on the queue of heartbeats, a part of a log, and the progress of a task.
pub data Message : Type 0 where
  task_message : String → Task → Message
  job_message : Job → Message
  event_message : String → Job → Message
  schedule_message : String → ScheduledJob → Message
  heartbeat_message : Node → Message
  log_message : TaskLogPart → Message
  progress_message : Task → Message

-- `panic` is a nil dereference or an index out of range. `out_of_fuel` belongs to the model only.
pub data Error : Type 0 where
  task_not_found job_not_found node_not_found duplicate_key missing_id panic out_of_fuel : Error
  user_not_found role_not_found scheduled_job_not_found missing_task_id invalid_part_number : Error
  unknown_scheduled_job invalid_input scheduling_error broker_terminated invalid_duration : Error
  runtime_error : String → Error
  unexpected_state : TaskState → Error
  unknown_schedule_state : ScheduledJobState → Error
  invalid_completion_state cannot_complete_task : TaskState → Error
  invalid_job_state cannot_complete_job cannot_restart_job : JobState → Error
  evaluation_error : String → Error

-- `db` is what the running handler sees, with the writes of its open transaction. `committed` is
-- what other connections see while a transaction is open. `readings` and `drawn` count the uses of
-- the clock and of the identifiers.
pub record World : Type 0 where
  pub db : Store
  pub committed : Store
  pub sent : List Message
  pub readings : ℕ
  pub drawn : ℕ

-- What the handlers call outside of the repository: `deadline` is `time.ParseDuration` and `Add`,
-- `trim_space` is `strings.TrimSpace`, `decimal` is `fmt.Sprintf("%d", …)`, `message` is
-- `err.Error()`, `sanitize` is `strings.ReplaceAll` of NUL by nothing, and `guest` is the row of the user "guest".
pub record Env : Type 0 where
  pub now : ℕ → Time
  pub uuid : ℕ → String
  pub evaluator : Evaluator
  pub deadline : Time → String → Option Time
  pub trim_space : String → String
  pub decimal : ℕ → String
  pub message : Error → String
  pub guest : User
  pub sanitize : String → String

abbrev pub M : Type 0 → Type 0
M A = World → Eval.Result Error A × World

abbrev pub Result : Type 0 → Type 0
Result A = Eval.Result Error A

pattern abbrev pub ok : {A : Type 0} → A → Result A
ok a = Eval.Result.ok a

pattern abbrev pub err : {A : Type 0} → Error → Result A
err e = Eval.Result.err e

abbrev pub pure : {A : Type 0} → A → M A
pure a w = (ok a, w)

abbrev pub fail : {A : Type 0} → Error → M A
fail e w = (err e, w)

abbrev pub proceed : {A B : Type 0} → Result A → (A → M B) → M B
proceed (Eval.Result.ok a) f w = f a w
proceed (Eval.Result.err e) f w = (err e, w)

infixl 5 ◌>>=◌ ◌>>◌
abbrev pub ◌>>=◌ : {A B : Type 0} (action : M A) (next : A → M B) → M B
◌>>=◌ action next w = let (r, w') = action w in proceed r next w'

abbrev pub ◌>>◌ : {B : Type 0} → M (Unit {0}) → M B → M B
m >> n = m >>= λ _. n

abbrev pub gets : {A : Type 0} → (World → A) → M A
gets f w = (ok (f w), w)

abbrev pub lift : {A : Type 0} → Result A → M A
lift r w = (r, w)

-- `if !test { return err }`
abbrev pub ensure : Bool → Error → M (Unit {0})
ensure true e = pure tt
ensure false e = fail e

-- A value, or the error for its absence.
abbrev pub need : {A : Type 0} → Option A → Error → M A
need none e = fail e
need (some a) e = pure a

-- `time.Now().UTC()` and `uuid.NewUUID()`
abbrev pub time_now : Env → M Time
time_now env w = (ok (env.now w.readings), record w { readings = w.readings + 1 })

abbrev pub new_uuid : Env → M String
new_uuid env w = (ok (env.uuid w.drawn), record w { drawn = w.drawn + 1 })

-- `PublishTask`, `PublishJob` and `PublishEvent` of the interface `Broker`, which accepts.
abbrev pub publish : Message → M (Unit {0})
publish m w = (ok tt, record w { sent = w.sent ++ m ∷ [] })

abbrev pub publish_task : String → Task → M (Unit {0})
publish_task queue t = publish (task_message queue t)

abbrev pub publish_job : Job → M (Unit {0})
publish_job j = publish (job_message j)

abbrev pub publish_event : String → Job → M (Unit {0})
publish_event topic j = publish (event_message topic j)

abbrev pub settle : {A : Type 0} → Result A → World → Result A × World
settle (Eval.Result.ok a) w = (ok a, w)
settle (Eval.Result.err e) w = (err e, record w { db = w.committed })

-- `WithTx` of datastore/postgres: after an error the tables are as the other connections left them.
-- What was published stays published.
unfoldable pub with_tx : {A : Type 0} → M A → M A
with_tx body w = let (r, w') = body (record w { committed = w.db }) in settle r w'
