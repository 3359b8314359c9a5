-- ===== src/Handlers/Schedule.antt =====
-- internal/coordinator/handlers/schedule.go, without the lock that a run of an entry is under. The
-- library gocron keeps the entries: `NewJob` adds one if it accepts the expression, and `RemoveJob`
-- removes one that is there.
use tork.Prelude.{
  ℕ, ◌+◌, String, Bool, true, false, not, Option, none, some, List, [], ◌∷◌, ◌++◌, Dict, insert,
  length, ◌==◌, str_eq, if◌then◌else◌,
}
use tork.User.{Time}
use tork.Job.{JobState, ScheduledJobState, Job, ScheduledJob}
use tork.Eval
use tork.Exec.{
  World, Env, M, Result, ok, err, unknown_schedule_state, unknown_scheduled_job, scheduling_error,
  pure, ◌>>=◌, ◌>>◌, time_now, new_uuid, publish_job,
}
use tork.Datastore.{create_job}
use tork.Datastore.Users.{filter_rows}
pub mod Entries

-- An entry of gocron: its identifier, and the scheduled job that its task is given.
pub record Entry : Type 0 where
  pub id : ℕ
  pub job : ScheduledJob

-- `m` leads from the identifier of a scheduled job to that of its entry; `entries` and the next
-- identifier are gocron's.
pub record Schedules : Type 0 where
  pub m : Dict ℕ
  pub entries : List Entry
  pub next_id : ℕ

unfoldable pub lookup : String → Dict ℕ → Option ℕ
lookup key [] = none
lookup key ((k, n) ∷ rest) = if str_eq k key then some n else lookup key rest

-- delete(m, key)
unfoldable pub remove : String → Dict ℕ → Dict ℕ
remove key [] = []
remove key ((k, n) ∷ rest) =
    let others = remove key rest in if str_eq k key then others else (k, n) ∷ others

has_entry : ℕ → List Entry → Bool
has_entry id [] = false
has_entry id (e ∷ es) = if e.id == id then true else has_entry id es

-- `accepts` is whether gocron takes the cron expression.
module _ (accepts : String → Bool) where
  unfoldable pub handle_active : ScheduledJob → Schedules → Result (Unit {0}) × Schedules
  handle_active s st =
      if accepts s.cron
      then (
        ok tt,
        record {
          m = insert s.id st.next_id st.m;
          entries = st.entries ++ record { id = st.next_id; job = s } ∷ [];
          next_id = st.next_id + 1;
        },
      )
      else (err scheduling_error, st)

  unfoldable pub handle_paused : ScheduledJob → Schedules → Result (Unit {0}) × Schedules
  unfolding lookup remove has_entry filter_rows
  handle_paused s st = elim (lookup s.id st.m) [
    | none ↦ (err unknown_scheduled_job, st)
    | some id ↦
        if has_entry id st.entries
        then (
          ok tt,
          record st {
            m = remove s.id st.m;
            entries = filter_rows (λ e. not (e.id == id)) st.entries;
          },
        )
        else (err scheduling_error, st)
  ]

  unfoldable pub handle : ScheduledJob → Schedules → Result (Unit {0}) × Schedules
  unfolding handle_active handle_paused
  handle s st = elim s.state [
    | ScheduledJobState.active ↦ handle_active s st
    | ScheduledJobState.paused ↦ handle_paused s st
    | ScheduledJobState.other text ↦ (err (unknown_schedule_state s.state), st)
  ]

  -- NewJobSchedulerHandler: the scheduled jobs that are active when the coordinator starts
  unfoldable pub handle_all : List ScheduledJob → Schedules → Result (Unit {0}) × Schedules
  handle_all [] st = (ok tt, st)
  handle_all (s ∷ ss) st =
      let (r, st') = handle s st in
      elim r [ Eval.Result.err e ↦ (err e, st') | Eval.Result.ok done ↦ handle_all ss st' ]

-- The job that is made each time an entry is due.
unfoldable pub instance_of : ScheduledJob → String → Time → Job
instance_of s id now = record {
  id = id;
  parent_id = "";
  name = s.name;
  description = s.description;
  tags = s.tags;
  state = JobState.pending;
  created_at = now;
  created_by = s.created_by;
  started_at = none;
  completed_at = none;
  failed_at = none;
  tasks = s.tasks;
  execution = [];
  position = 0;
  inputs = s.inputs;
  context = record { job = []; inputs = s.inputs; secrets = []; tasks = [] };
  task_count = length s.tasks;
  output = s.output;
  result = "";
  error = "";
  defaults = none;
  webhooks = s.webhooks;
  permissions = s.permissions;
  auto_delete = s.auto_delete;
  delete_at = none;
  secrets = s.secrets;
  progress = 0;
  schedule = some (record { id = s.id; cron = s.cron });
}

-- A failed creation is logged, and the job is published all the same.
unfoldable pub run_entry : Env → ScheduledJob → M (Unit {0})
unfolding instance_of
run_entry env s = do
  now ← time_now env
  id ← new_uuid env
  let j = instance_of s id now
  j' ← (λ w.
      let (r, v) = create_job env j w in
      elim r [
        | Eval.Result.ok made ↦ (Eval.Result.ok made, v)
        | Eval.Result.err e ↦ (Eval.Result.ok j, v)
      ])
  publish_job j'
