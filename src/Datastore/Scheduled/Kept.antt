-- ===== src/Datastore/Scheduled/Kept.antt =====
-- Scheduled jobs that are created and paused.
use tork.Prelude.{none, some, ◌≡◌, ◌≢◌, refl, [], ◌∷◌, ◌++◌, arith, eq_iff}
use tork.Job.{ScheduledJob}
use tork.User.{User}
use tork.Exec.{World, Env, pure, ok}
use tork.Datastore.{find_row}
use tork.Datastore.Rows.{find_row-write_row_self, find_row-append}
use tork.Datastore.Scheduled.{
  scheduled_key, scheduled_by, create_scheduled_job, get_scheduled_job, update_scheduled_job,
}

-- A scheduled job that is created and then gets another state is read back as it was created, but
-- for that state: whatever else the update changes is not kept.
pub update_scheduled_job-state :
    (env : Env) (s : ScheduledJob) (u : User) (modify : ScheduledJob → ScheduledJob) (w : World)
    → s.id ≢ ""
    → s.created_by ≡ some u
    → find_row scheduled_key s.id w.db.scheduled_jobs ≡ none
    → let v = (create_scheduled_job env s w).1 in
      let x = (update_scheduled_job s.id (λ t. pure (modify t)) v).1 in
      ((create_scheduled_job env s w).0 ≡ ok s)
      × ((get_scheduled_job s.id v).0 ≡ ok s)
      × ((get_scheduled_job s.id x).0
          ≡ ok (record s { state = (modify (record s { permissions = [] })).state }))
unfolding create_scheduled_job get_scheduled_job update_scheduled_job scheduled_by
update_scheduled_job-state env s u modify w named by fresh =
    let new = record s { state = (modify (record s { permissions = [] })).state } in
    let rows = w.db.scheduled_jobs ++ s ∷ [] in
    let found : find_row scheduled_key s.id rows ≡ some s =
      ground (arith, find_row-append scheduled_key s.id s w.db.scheduled_jobs, eq_iff s.id s.id) in
    ground (
      arith,
      by,
      found,
      eq_iff s.id "",
      find_row-write_row_self scheduled_key s.id new rows s refl found,
    )
