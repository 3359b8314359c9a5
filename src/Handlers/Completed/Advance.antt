-- ===== src/Handlers/Completed/Advance.antt =====
-- How the completion of a top-level task moves its job on.
use mathlib.Core.Path.{subst}
use tork.User.{Time}
use tork.Scheduler.Common.{as_map}
use tork.Handlers.Fire.Placed.{
  IsPlaced, IsReady, evaluate_or_fail-IsPlaced, evaluate_or_fail-IsReady,
}
use tork.Prelude.{
  eq_iff, ap, ◌∙◌, ℕ, zero, suc, ◌+◌, ◌++◌, ◌∷◌, [], ◌≤◌, ◌<◌, ◌*◌, ◌≡◌, arith, some, none, true,
  String, List, get_elem?, length,
}
use native.Mathlib.Nat.{mul-div-le}
use tork.Task.{Task, TaskState}
use tork.Job.{Job, JobState}
use tork.Exec.{proceed, World, Env, Result, ok, with_tx, task_message}
use tork.Broker.Queues.{queue_pending}
use tork.Datastore.{
  execution_of, find_row, task_key, job_key, update_task, update_job, get_job, create_task,
  inserted_task, written_task, written_job, write_row,
}
use tork.Datastore.RoundTrip.{as_created, inserted_task-as_created}
use tork.Datastore.Rows.{
  find_row-append, find_row-write_row-none, find_row-write_row_self, key-find_row,
}
use tork.Handlers.States.{is_completable}
use tork.Handlers.Jobs
use tork.Handlers.Fire.{task_at, place_task, evaluate_or_fail}
use tork.Handlers.Completed.{
  move_on, complete_top_level_task, advance, advance_job, with_result, round_div,
}

-- A rounded quotient of numbers whose quotient is at most c is at most c.
pub round_div_le : (a b c : ℕ) → 0 < b → a ≤ c * b → round_div a b ≤ c
unfolding round_div
round_div_le a b c h k = let quotient = mul-div-le (2 * a + b) (2 * b) in grind (arith, quotient)

-- The progress that a completion writes to a job with tasks is at most 100%, if the position of the job
-- is within its tasks.
pub advance_job-progress_le :
    (t : Task) (u : Job)
    → 0 < u.task_count
    → u.position ≤ u.task_count
    → (advance_job t u).progress ≤ 10000
unfolding advance_job
advance_job-progress_le t u h k =
    ground (arith, round_div_le (u.position * 10000) u.task_count 10000 h (omega arith))

index-lt : {A : Type 0} (xs : List A) (i : ℕ) (x : A) → get_elem? xs i ≡ some x → i < length xs
index-lt [] i x h = ground arith
index-lt (y ∷ ys) zero x h = omega arith
index-lt (y ∷ ys) (suc i) x h = omega (arith, index-lt ys i x h)

-- A task of a job with what it gets before it is created.
abbrev pub placed : String → ℕ → Time → String → Task → Task
placed job_id position now id t = record t {
  info = record t.info {
    id = id;
    job_id = job_id;
    state = TaskState.pending;
    position = position;
    created_at = some now;
  };
}

-- What is left to do in a world where the job stands at a position of its tasks.
module _ (env : Env) (t next : Task) (j : Job) (i : ℕ) (v : World)
    (job_found : find_row job_key t.job_id v.db.jobs ≡ some j) (at_position : j.position ≡ suc i)
    (another : get_elem? j.tasks i ≡ some next) where
  -- The job as it is read.
  abbrev pub read_job : Job
  read_job = record j { execution = execution_of t.job_id v.db.tasks }

  abbrev pub next_task : Task
  next_task =
      evaluate_or_fail env read_job (env.now v.readings)
        (place_task read_job j.position (env.now v.readings) (env.uuid v.drawn) next)

  pub move_on-next :
      find_row task_key next_task.id v.db.tasks ≡ none
      → ((move_on env t v).0 ≡ ok tt)
        × ((move_on env t v).1.sent ≡ v.sent ++ task_message queue_pending next_task ∷ [])
        × (find_row task_key next_task.id (move_on env t v).1.db.tasks
            ≡ some (as_created env next_task))
        × ((move_on env t v).1.db.jobs ≡ v.db.jobs)
  unfolding move_on get_job create_task Jobs.handle task_at
  move_on-next fresh = ground (
    arith,
    index-lt j.tasks i next another,
    inserted_task-as_created env next_task,
    find_row-append task_key next_task.id (inserted_task env next_task) v.db.tasks,
    eq_iff next_task.id next_task.id,
  )

  pub move_on-IsReady :
      IsReady env.evaluator
        (as_map j.context)
        (env.now v.readings)
        (placed j.id j.position (env.now v.readings) (env.uuid v.drawn) next)
        next_task
  unfolding place_task
  move_on-IsReady =
      evaluate_or_fail-IsReady env read_job (env.now v.readings)
        (place_task read_job j.position (env.now v.readings) (env.uuid v.drawn) next)

  pub move_on-IsPlaced : IsPlaced read_job j.position (env.uuid v.drawn) next_task
  move_on-IsPlaced =
      evaluate_or_fail-IsPlaced env read_job read_job j.position (env.now v.readings)
        (env.uuid v.drawn) next

-- The rest of the job is empty: the job is handed on as COMPLETED.
pub move_on-last :
    (env : Env) (t : Task) (j : Job) (v : World)
    → find_row job_key t.job_id v.db.jobs ≡ some j
    → length j.tasks < j.position
    → move_on env t v
      ≡ Jobs.handle env Jobs.state_change
          (record j {
            execution = execution_of t.job_id v.db.tasks;
            state = JobState.completed;
            completed_at = some (env.now v.readings);
          })
          (record v { readings = v.readings + 1 })
unfolding move_on get_job Jobs.handle
move_on-last env t j v found past = ground arith

-- The transaction on a task that may be completed.
module _ (t u : Task) (j : Job) (w : World)
    (task_found : find_row task_key t.id w.db.tasks ≡ some u)
    (job_found : find_row job_key t.job_id w.db.jobs ≡ some j)
    (completable : is_completable u.state ≡ true) where
  abbrev completed_row : Task
  completed_row = record u {
    info = record u.info { state = t.state; completed_at = t.completed_at; result = t.result };
  }

  abbrev pub advanced_row : Job
  advanced_row = written_job j (advance_job t (record j { execution = []; permissions = [] }))

  abbrev pub after_tx : World
  after_tx = record w {
    db = record w.db {
      tasks = write_row task_key t.id completed_row w.db.tasks;
      jobs = write_row job_key t.job_id advanced_row w.db.jobs;
    };
    committed = w.db;
  }

  advance_lem : advance t w ≡ (ok tt, after_tx)
  unfolding advance with_tx update_task update_job written_task
  advance_lem = ground (
    arith,
    key-find_row task_key t.id w.db.tasks u task_found,
    key-find_row job_key t.job_id w.db.jobs j job_found,
  )

  complete_top_level_task-after :
      (env : Env) → complete_top_level_task env t w ≡ move_on env t after_tx
  unfolding complete_top_level_task
  complete_top_level_task-after env =
      ap (λ (r : Result (Unit {0}) × World). proceed r.0 (λ _. move_on env t) r.1) advance_lem

  job_moved : find_row job_key t.job_id after_tx.db.jobs ≡ some advanced_row
  unfolding written_job
  job_moved =
      let same = key-find_row job_key t.job_id w.db.jobs j job_found in
      find_row-write_row_self job_key t.job_id advanced_row w.db.jobs j same job_found

  position_moved : advanced_row.position ≡ suc j.position
  unfolding advance_job with_result written_job
  position_moved = ground arith

  id_free :
      (id : String)
      → find_row task_key id w.db.tasks ≡ none
      → find_row task_key id after_tx.db.tasks ≡ none
  id_free id =
      find_row-write_row-none task_key t.id id completed_row w.db.tasks
        (key-find_row task_key t.id w.db.tasks u task_found)

  -- Where the row of a task may be completed and its job is found, the completion of a task that
  -- is not the last one of the job leaves the job at its next position and sends one message, for
  -- a task that has been created with the new identifier and that next position: it is the task
  -- of the job there, evaluated, or FAILED where the evaluation fails. The new identifier must not
  -- be taken yet.
  pub complete_top_level_task-next :
      (env : Env) (next : Task)
      → get_elem? j.tasks j.position ≡ some next
      → find_row task_key (env.uuid w.drawn) w.db.tasks ≡ none
      → (n : Task) × ((complete_top_level_task env t w).0 ≡ ok tt)
        × ((complete_top_level_task env t w).1.sent ≡ w.sent ++ task_message queue_pending n ∷ [])
        × (find_row task_key n.id (complete_top_level_task env t w).1.db.tasks
            ≡ some (as_created env n))
        × IsPlaced j (suc j.position) (env.uuid w.drawn) n
        × IsReady env.evaluator
            (as_map advanced_row.context)
            (env.now w.readings)
            (placed j.id (suc j.position) (env.now w.readings) (env.uuid w.drawn) next)
            n
        × (find_row job_key t.job_id (complete_top_level_task env t w).1.db.jobs
            ≡ some advanced_row)
        × (advanced_row.position ≡ suc j.position)
  unfolding written_job
  complete_top_level_task-next env next another fresh =
      let n =
        next_task env t next advanced_row j.position after_tx job_moved position_moved another in
      let p =
        move_on-IsPlaced env t next advanced_row j.position after_tx job_moved position_moved
          another in
      let free =
        ap (λ id. find_row task_key id after_tx.db.tasks) p.id_eq
        ∙ id_free (env.uuid w.drawn) fresh in
      let m =
        move_on-next env t next advanced_row j.position after_tx job_moved position_moved another
          free in
      let after = complete_top_level_task-after env in
      (
        n,
        ap (λ r. r.0) after ∙ m.0,
        ap (λ r. r.1.sent) after ∙ m.1,
        ap (λ r. find_row task_key n.id r.1.db.tasks) after ∙ m.2,
        record {
          id_eq = p.id_eq;
          job_eq = p.job_eq;
          position_eq = p.position_eq ∙ position_moved;
          state_cases = p.state_cases;
        },
        subst
            (λ k.
              IsReady env.evaluator (as_map advanced_row.context) (env.now w.readings)
                (placed j.id k (env.now w.readings) (env.uuid w.drawn) next) n)
            position_moved
            (move_on-IsReady env t next advanced_row j.position after_tx job_moved position_moved
              another),
        ap (λ r. find_row job_key t.job_id r.1.db.jobs) after
            ∙ ap (find_row job_key t.job_id) m.3
            ∙ job_moved,
        position_moved,
      )

  -- Where the row of a task may be completed and its job is found, the completion of the last task of
  -- the job hands the job on as COMPLETED, with the row of the task and the position of the job written.
  pub complete_top_level_task-last :
      (env : Env)
      → length j.tasks ≤ j.position
      → complete_top_level_task env t w
        ≡ Jobs.handle env Jobs.state_change
            (record advanced_row {
              execution = execution_of t.job_id after_tx.db.tasks;
              state = JobState.completed;
              completed_at = some (env.now w.readings);
            })
            (record after_tx { readings = w.readings + 1 })
  unfolding written_job
  complete_top_level_task-last env past =
      complete_top_level_task-after env
      ∙ move_on-last env t advanced_row after_tx job_moved (omega (arith, position_moved, past))
