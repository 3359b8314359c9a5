-- ===== src/Moves/Starts.antt =====
-- The start of a job moves its row on, if the row is still PENDING.
use mathlib.Core.Path.{subst}
use tork.Prelude.{String, some, ◌≡◌, refl, sym, List}
use tork.Job.{JobState, Job}
use tork.Eval
use tork.Exec.{World, Env, M, Result, proceed, pure, time_now, new_uuid, ◌>>=◌}
use tork.Datastore.{find_row, job_key, update_job, create_task}
use tork.Handlers.States.{task_failed}
use tork.Handlers.Fire.{task_at, place_task, evaluate_or_fail}
use tork.Handlers.Pending
use tork.Handlers.Jobs.{start_job, fail_job}
use tork.Moves.{start, JobSteps, one, Moves, Moves-refl, Moves-trans}
use tork.Moves.Rows.{update_job-Moves_at}
use tork.Moves.UnderWay.{fail_job-Moves}
use tork.Moves.Actions.{IsMover, IsStill, if-IsMover, still_then}
use tork.Moves.Still.{time_now-IsStill, new_uuid-IsStill, create_task-IsStill}
use tork.Moves.Completed.{task_at-IsStill}
use tork.Moves.Scheduled.{pending-IsMover}

-- The row with the key, if there is one, is PENDING.
abbrev pub IsWaiting : String → List Job → Type 0
IsWaiting id js = (row : Job) → find_row job_key id js ≡ some row → row.state ≡ JobState.pending

-- Rows move on, if the one with the key is PENDING.
record IsStarter {A : Type 0} (id : String) (m : M A) : Type 0 where
  at : (w : World) → IsWaiting id w.db.jobs → Moves w.db.jobs (m w).1.db.jobs

still-IsWaiting : (id : String) (js ks : List Job) → ks ≡ js → IsWaiting id js → IsWaiting id ks
still-IsWaiting id js ks same waits = subst (λ rows. IsWaiting id rows) (sym same) waits

proceed-IsStarter :
    {A B : Type 0}
    → (id : String) (r : Result A) (f : A → M B) → ((a : A) → IsStarter id (f a))
    → (v : World) → IsWaiting id v.db.jobs
    → Moves v.db.jobs (proceed r f v).1.db.jobs
proceed-IsStarter id (Eval.Result.ok a) f next v waits = (next a).at v waits
proceed-IsStarter id (Eval.Result.err e) f next v waits = Moves-refl v.db.jobs

still_starts :
    {A B : Type 0}
    → (id : String) (m : M A) (f : A → M B) → IsStill m
    → ((a : A) → IsStarter id (f a))
    → IsStarter id (m >>= f)
still_starts id m f still next = record {
  at = λ w waits.
      subst (λ rows. Moves rows ((m >>= f) w).1.db.jobs) (still.at w)
        (proceed-IsStarter id (m w).0 f next (m w).1
          (still-IsWaiting id w.db.jobs (m w).1.db.jobs (still.at w) waits));
}

proceed-then :
    {A B : Type 0}
    → (r : Result A) (f : A → M B) → ((a : A) → IsMover (f a))
    → (v : World) → Moves v.db.jobs (proceed r f v).1.db.jobs
proceed-then (Eval.Result.ok a) f next v = (next a).at v
proceed-then (Eval.Result.err e) f next v = Moves-refl v.db.jobs

starts_then :
    {A B : Type 0}
    → (id : String) (m : M A) (f : A → M B) → IsStarter id m
    → ((a : A) → IsMover (f a))
    → IsStarter id (m >>= f)
starts_then id m f first next = record {
  at = λ w waits.
      Moves-trans w.db.jobs (m w).1.db.jobs ((m >>= f) w).1.db.jobs (first.at w waits)
        (proceed-then (m w).0 f next (m w).1);
}

module _ (env : Env) where
  schedule_row : Job → M Job
  schedule_row u = do
    n ← time_now env
    pure (record u { state = JobState.scheduled; started_at = some n; position = 1 })

  schedule_row-IsStarter : (id : String) → IsStarter id (update_job id schedule_row)
  unfolding schedule_row
  schedule_row-IsStarter id = record {
    at = λ w waits.
        update_job-Moves_at id schedule_row w (λ u. refl)
          (λ old found.
            subst (λ s. JobSteps s JobState.scheduled) (sym (waits old found)) (one start));
  }

  -- The first task does not evaluate.
  fails_now : Job → M (Unit {0})
  fails_now j = do
    n ← time_now env
    fail_job (record j { failed_at = some n; state = JobState.failed })

  fails_now-IsMover : (j : Job) → IsMover (fails_now j)
  unfolding fails_now
  fails_now-IsMover j =
      still_then (time_now env)
        (λ n. fail_job (record j { failed_at = some n; state = JobState.failed }))
        (time_now-IsStill env)
        λ n. record {
          at = fail_job-Moves (record j { failed_at = some n; state = JobState.failed });
        }

  pub start_job-Moves :
      (j : Job) (w : World)
      → IsWaiting j.id w.db.jobs
      → Moves w.db.jobs (start_job env j w).1.db.jobs
  unfolding start_job schedule_row fails_now
  start_job-Moves j w waits = whole.at w waits
    where
      whole : IsStarter j.id (start_job env j)
      whole = still_starts j.id (time_now env) _ (time_now-IsStill env) λ now.
          still_starts j.id (task_at j 1) _ (task_at-IsStill j 1) λ first.
            still_starts j.id (new_uuid env) _ (new_uuid-IsStill env) λ id.
              let t = evaluate_or_fail env j now (place_task j 1 now id first) in
              still_starts j.id (create_task env t) _ (create_task-IsStill env t) λ done.
                starts_then j.id (update_job j.id schedule_row) _ (schedule_row-IsStarter j.id)
                  λ written.
                    if-IsMover (task_failed t.state) (fails_now j) (Pending.handle env t)
                      (fails_now-IsMover j) (pending-IsMover env t)
