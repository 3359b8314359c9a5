-- ===== src/Handlers/Progress.antt =====
-- internal/coordinator/handlers/progress.go and log.go
use tork.Prelude.{ℕ, ◌+◌, ◌-◌, ◌*◌, ltb, if◌then◌else◌}
use tork.Task.{TaskLogPart, Task}
use tork.Job.{Job}
use tork.Eval
use tork.Exec.{Env, M, pure, ◌>>=◌, ◌>>◌}
use tork.Datastore.{get_job, update_task, update_job}
use tork.Datastore.Logs.{create_task_log_part}
use tork.Handlers.Completed.{round_div}
use tork.Handlers.Jobs
use tork.Handlers.Jobs.{progress}
pub mod Share

-- The progress that a worker reports: a negative number, or hundredths of a percent.
pub data Reading : Type 0 where
  negative : Reading
  hundredths : ℕ → Reading

-- Between 0 and 100%.
unfoldable pub clamp : Reading → ℕ
clamp negative = 0
clamp (hundredths n) = if ltb 10000 n then 10000 else n

-- The progress of a job whose current task has the progress `p`. The position of a job that has
-- started is 1 at least, and it has a task at least.
unfoldable pub overall : ℕ → Job → ℕ
unfolding round_div
overall p j = round_div ((j.position - 1) * 10000 + p) j.task_count

module _ (env : Env) where
  -- `et` is Progress, and so is the event that the handler of jobs is called with.
  unfoldable pub handle : Reading → Task → M (Unit {0})
  unfolding clamp overall
  handle reading t = do
    let p = clamp reading
    update_task t.id λ u. pure (record u { info = record u.info { progress = p } })
    j ← get_job t.job_id
    let done = overall p j
    update_job t.job_id λ u. pure (record u { progress = done })
    Jobs.handle env progress (record j { progress = done })

  -- An error is logged and goes no further.
  unfoldable pub handle_log_part : TaskLogPart → M (Unit {0})
  handle_log_part p w = let (r, v) = create_task_log_part env p w in (Eval.Result.ok tt, v)
