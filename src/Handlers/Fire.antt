-- ===== src/Handlers/Fire.antt =====
-- The task of a job at its position, made ready to be created: the statements that `startJob` and
-- `restartJob` of internal/coordinator/handlers/job.go and `completeTopLevelTask` of completed.go
-- have in common.
pub mod Placed
use tork.Prelude.{ℕ, suc, zero, String, none, some, get_elem?}
use tork.User.{Time}
use tork.Task.{TaskState, Task}
use tork.Job.{Job}
use tork.Eval.{evaluate_task}
use tork.Scheduler.Common.{as_map}
use tork.Exec.{Env, M, panic, fail, need}

unfoldable pub place_task : Job → ℕ → Time → String → Task → Task
place_task j position now id t = record t {
  info = record t.info {
    id = id;
    job_id = j.id;
    state = TaskState.pending;
    position = position;
    created_at = some now;
  };
}

unfoldable pub fail_task : Time → Task → String → Task
fail_task now t e = record t {
  info = record t.info { error = e; state = TaskState.failed; failed_at = some now };
}

-- A task whose evaluation fails is marked as FAILED, and is created all the same.
unfoldable pub evaluate_or_fail : Env → Job → Time → Task → Task
unfolding fail_task
evaluate_or_fail env j now t =
    let (t', failure) = evaluate_task env.evaluator (as_map j.context) t in
    elim failure [ none ↦ t' | some e ↦ fail_task now t' e ]

-- `j.Tasks[position-1]`
unfoldable pub task_at : Job → ℕ → M Task
task_at j zero = fail panic
task_at j (suc i) = need (get_elem? j.tasks i) panic
