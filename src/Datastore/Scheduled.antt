-- ===== src/Datastore/Scheduled.antt =====
-- datastore/postgres/postgres.go: scheduled jobs
use tork.Prelude.{
  String, Bool, true, false, not, ◌&&◌, Option, none, some, List, [], ◌∷◌, ◌++◌, str_eq,
  if◌then◌else◌,
}
use tork.Job.{ScheduledJobState, JobSchedule, Job, ScheduledJob}
use tork.Exec.{
  World, Env, M, missing_id, scheduled_job_not_found, duplicate_key, pure, fail, ensure, need, gets,
  ◌>>=◌, ◌>>◌, with_tx,
}
use tork.Datastore.{find_row, write_row}
use tork.Datastore.Users.{filter_rows}
use tork.Datastore.Cleanup.{delete_jobs}
pub mod Kept

abbrev pub scheduled_key : ScheduledJob → String
scheduled_key s = s.id

abbrev pub set_scheduled_jobs : List ScheduledJob → World → World
set_scheduled_jobs ss w = record w { db = record w.db { scheduled_jobs = ss } }

scheduled_by : Env → ScheduledJob → ScheduledJob
scheduled_by env s = elim s.created_by [
  | some u ↦ s
  | none ↦ record s { created_by = some env.guest }
]

-- CreateScheduledJob, which completes its argument by the user who creates it
unfoldable pub create_scheduled_job : Env → ScheduledJob → M ScheduledJob
unfolding find_row scheduled_by
create_scheduled_job env s = do
  ensure (not (str_eq s.id "")) missing_id
  let s' = scheduled_by env s
  λ w. elim (find_row scheduled_key s'.id w.db.scheduled_jobs) [
    | some old ↦ fail duplicate_key w
    | none ↦ pure s' (set_scheduled_jobs (w.db.scheduled_jobs ++ s' ∷ []) w)
  ]

-- GetScheduledJobByID
unfoldable pub get_scheduled_job : String → M ScheduledJob
unfolding find_row
get_scheduled_job id w =
    need (find_row scheduled_key id w.db.scheduled_jobs) scheduled_job_not_found w

is_active_schedule : ScheduledJobState → Bool
is_active_schedule ScheduledJobState.active = true
is_active_schedule s = false

-- The rows as they are read, without their permissions.
without_permissions : List ScheduledJob → List ScheduledJob
without_permissions [] = []
without_permissions (s ∷ ss) = record s { permissions = [] } ∷ without_permissions ss

-- GetActiveScheduledJobs
unfoldable pub get_active_scheduled_jobs : M (List ScheduledJob)
unfolding is_active_schedule without_permissions filter_rows
get_active_scheduled_jobs =
    gets
      λ w. without_permissions (filter_rows (λ s. is_active_schedule s.state) w.db.scheduled_jobs)

-- UpdateScheduledJob, of which only the state is written
unfoldable pub update_scheduled_job : String → (ScheduledJob → M ScheduledJob) → M (Unit {0})
unfolding find_row write_row
update_scheduled_job id modify = do
  old ← (λ w. need (find_row scheduled_key id w.db.scheduled_jobs) scheduled_job_not_found w)
  new ← modify (record old { permissions = [] })
  λ w. pure tt (
      set_scheduled_jobs
        (write_row scheduled_key old.id (record old { state = new.state }) w.db.scheduled_jobs) w)

is_instance_of : String → Job → Bool
is_instance_of id j = elim j.schedule [ none ↦ false | some s ↦ str_eq s.id id ]

ids_of_instances : String → List Job → List String
unfolding is_instance_of
ids_of_instances id [] = []
ids_of_instances id (j ∷ js) =
    let rest = ids_of_instances id js in if is_instance_of id j then j.id ∷ rest else rest

-- DeleteScheduledJob, which deletes the jobs that were made from it as well
unfoldable pub delete_scheduled_job : String → M (Unit {0})
unfolding ids_of_instances filter_rows
delete_scheduled_job id = with_tx (do
  ids ← gets λ w. ids_of_instances id w.db.jobs
  deleted ← delete_jobs ids
  λ w. pure tt (set_scheduled_jobs (filter_rows (λ s. not (str_eq s.id id)) w.db.scheduled_jobs) w))
