-- ===== src/Datastore/Cleanup.antt =====
-- datastore/postgres/postgres.go: the removal of jobs, with their tasks and logs, and of what has
-- expired. Of more rows than the limit the statements leave open which are taken: the model takes
-- the oldest. A time of retention reaches back to the epoch at most.
use tork.Prelude.{
  ℕ, ◌+◌, ◌-◌, ◌*◌, ◌/◌, String, Bool, true, false, not, ◌&&◌, ◌||◌, Option, none, some, List, [],
  ◌∷◌, length, ltb, str_eq, if◌then◌else◌,
}
use tork.User.{Time}
use tork.Task.{TaskLogPart, Task}
use tork.Job.{JobState, Job}
use tork.Exec.{World, Env, M, pure, gets, ◌>>=◌, ◌>>◌, time_now, with_tx}
use tork.Datastore.{set_tasks, set_jobs}
use tork.Datastore.Users.{filter_rows}
use tork.Datastore.Paging.{take}
use tork.Datastore.Logs.{set_log_parts}
pub mod Deleted

-- `= ANY(…)`
unfoldable pub is_any : List String → String → Bool
is_any [] id = false
is_any (i ∷ is) id = str_eq i id || is_any is id

pub ids_of_tasks : List String → List Task → List String
unfolding is_any
ids_of_tasks ids [] = []
ids_of_tasks ids (t ∷ ts) =
    let rest = ids_of_tasks ids ts in if is_any ids t.job_id then t.id ∷ rest else rest

-- The tables without the rows of the jobs. The permissions of a job are in its row.
unfoldable pub without_jobs : List String → World → World
unfolding is_any ids_of_tasks filter_rows
without_jobs ids w =
    let gone = ids_of_tasks ids w.db.tasks in
    set_jobs (filter_rows (λ j. not (is_any ids j.id)) w.db.jobs) (
      set_tasks (filter_rows (λ t. not (is_any ids t.job_id)) w.db.tasks)
        (set_log_parts (filter_rows (λ p. not (is_any gone p.task_id)) w.db.log_parts) w))

-- deleteJobs, whose answer is the number of deleted jobs
unfoldable pub delete_jobs : List String → M ℕ
unfolding without_jobs
delete_jobs [] w = pure 0 w
delete_jobs (id ∷ ids) w =
    pure (length (filter_rows (λ j. is_any (id ∷ ids) j.id) w.db.jobs)) (without_jobs (id ∷ ids) w)

is_final : JobState → Bool
is_final JobState.completed = true
is_final JobState.failed = true
is_final JobState.cancelled = true
is_final s = false

-- A job is due when its time of deletion is past, or when it is old and over.
unfoldable pub is_expired : Time → Time → Job → Bool
unfolding is_final
is_expired now retention j =
    elim j.delete_at [ none ↦ false | some d ↦ ltb d now ]
    || (ltb j.created_at (now - retention) && is_final j.state)

expired_ids : Time → Time → List Job → List String
unfolding is_expired
expired_ids now retention [] = []
expired_ids now retention (j ∷ js) =
    let rest = expired_ids now retention js in
    if is_expired now retention j then j.id ∷ rest else rest

abbrev limit : ℕ
limit = 1000

module _ (env : Env) where
  -- expungeExpiredJobs, for a time of retention
  unfoldable pub expunge_expired_jobs : Time → M ℕ
  unfolding expired_ids delete_jobs
  expunge_expired_jobs retention = with_tx (do
    now ← time_now env
    ids ← gets λ w. take limit (expired_ids now retention w.db.jobs)
    delete_jobs ids)

  is_old : Time → Option Time → Bool
  is_old bound none = false
  is_old bound (some t) = ltb t bound

  ids_of_parts : Time → List TaskLogPart → List String
  unfolding is_old
  ids_of_parts bound [] = []
  ids_of_parts bound (p ∷ ps) =
      let rest = ids_of_parts bound ps in if is_old bound p.created_at then p.id ∷ rest else rest

  -- expungeExpiredTaskLogPart
  unfoldable pub expunge_expired_task_log_part : Time → M ℕ
  unfolding ids_of_parts is_any filter_rows
  expunge_expired_task_log_part retention = do
    now ← time_now env
    ids ← gets λ w. take limit (ids_of_parts (now - retention) w.db.log_parts)
    λ w.
        pure (length (filter_rows (λ p. is_any ids p.id) w.db.log_parts))
          (set_log_parts (filter_rows (λ p. not (is_any ids p.id)) w.db.log_parts) w)

-- The time until the next clean-up: halved when something was removed, doubled when nothing was,
-- within bounds.
unfoldable pub next_interval : Time → Time → Time → ℕ → Time
next_interval least most interval n =
    if ltb 0 n
    then (if ltb (interval / 2) least then least else interval / 2)
    else if ltb most (interval * 2)
    then most
    else interval * 2

-- cleanup, of which the answer is the next interval
unfoldable pub cleanup : Env → Time → Time → Time → Time → Time → M Time
cleanup env least most logs_retention jobs_retention interval = do
  n1 ← expunge_expired_task_log_part env logs_retention
  n2 ← expunge_expired_jobs env jobs_retention
  pure (next_interval least most interval (n1 + n2))
