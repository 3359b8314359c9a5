-- ===== src/Handlers/Fire/Placed.antt =====
-- The task that is made ready for its turn.
use tork.Eval.{Evaluator, Scope, Partial, evaluate_task}
use tork.Prelude.{refl, none, some, ◌≡◌, ap, arith, ◌⊎◌, String, ℕ}
use tork.User.{Time}
use tork.Task.{Task, TaskState, TaskInfo}
use tork.Job.{Job}
use tork.Eval.Keeps.{evaluate_task-keeps}
use tork.Scheduler.Common.{as_map}
use tork.Exec.{Env}
use tork.Handlers.Fire.{place_task, fail_task, evaluate_or_fail}

-- What is created of a placed task `x`: its evaluation, or, where that fails, the task as far as it was
-- evaluated, FAILED with the error.
pub data IsReady (evaluator : Evaluator) (scope : Scope) (now : Time) (x : Task)
    : Task → Type 0 where
  evaluated :
      (n : Task) → evaluate_task evaluator scope x ≡ (n, none) → IsReady evaluator scope now x n
  broken :
      (n : Task) (e : String)
      → evaluate_task evaluator scope x ≡ (n, some e)
      → IsReady evaluator scope now x (record n {
        info = record n.info { error = e; state = TaskState.failed; failed_at = some now };
      })

pub evaluate_or_fail-IsReady :
    (env : Env) (j : Job) (now : Time) (x : Task)
    → IsReady env.evaluator (as_map j.context) now x (evaluate_or_fail env j now x)
unfolding evaluate_or_fail fail_task
evaluate_or_fail-IsReady env j now x =
    by_result (evaluate_task env.evaluator (as_map j.context) x) refl
  where
    by_result :
        (p : Partial Task)
        → evaluate_task env.evaluator (as_map j.context) x ≡ p
        → IsReady env.evaluator
            (as_map j.context)
            now
            x
            (elim p.1 [ none ↦ p.0 | some e ↦ fail_task now p.0 e ])
    by_result (n, none) h = evaluated n h
    by_result (n, some e) h = broken n e h

-- What a task has after it was placed, evaluated or not.
pub record IsPlaced (j : Job) (position : ℕ) (id : String) (t : Task) : Type 0 where
  pub id_eq : t.id ≡ id
  pub job_eq : t.job_id ≡ j.id
  pub position_eq : t.position ≡ position
  pub state_cases : (t.state ≡ TaskState.pending) ⊎ (t.state ≡ TaskState.failed)

-- A task that was placed, and evaluated or not, has the identifier, the job and the position that it
-- was given, and is PENDING or FAILED.
pub evaluate_or_fail-IsPlaced :
    (env : Env) (j k : Job) (position : ℕ) (now : Time) (id : String) (t : Task)
    → IsPlaced k position id (evaluate_or_fail env j now (place_task k position now id t))
unfolding evaluate_or_fail place_task
evaluate_or_fail-IsPlaced env j k position now id t =
    let kept =
      (evaluate_task-keeps env.evaluator (as_map j.context) (place_task k position now id t)).0 in
    ground (
      arith,
      ap (λ (i : TaskInfo). i.id) kept,
      ap (λ (i : TaskInfo). i.job_id) kept,
      ap (λ (i : TaskInfo). i.position) kept,
      ap (λ (i : TaskInfo). i.state) kept,
    )
