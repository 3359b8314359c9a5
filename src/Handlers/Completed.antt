-- ===== src/Handlers/Completed.antt =====
-- internal/coordinator/handlers/completed.go, with no middleware
pub mod Refused
pub mod Advance
pub mod Counter
pub mod Rules
pub mod Fuel
pub mod Member
use tork.Prelude.{
  ℕ, suc, zero, ◌+◌, ◌*◌, ◌/◌, String, Bool, true, false, not, ◌&&◌, some, length, insert, ltb, leb,
  str_eq, if◌then◌else◌,
}
use tork.Task.{EachInfo, TaskState, parallel_task, node_list, each_task, no_parallel, no_each, Task}
use tork.Job.{JobState, Job}
use tork.Broker.Queues.{queue_pending}
use tork.Exec.{
  Env, M, panic, out_of_fuel, invalid_completion_state, cannot_complete_task, pure, fail, ensure,
  ◌>>=◌, ◌>>◌, time_now, new_uuid, publish_task, with_tx,
}
use tork.Datastore.{
  get_task, get_job, update_task, update_task_returning, update_job, create_task,
  get_next_task_outside, update_task_outside,
}
use tork.Handlers.States.{is_completable}
use tork.Handlers.Fire.{task_at, place_task, evaluate_or_fail}
use tork.Handlers.Jobs
use tork.Handlers.Jobs.{state_change, progress}

-- The update of the row of a completed task, from the task that was received.
unfoldable pub complete_row : Task → Task → M Task
complete_row t u = do
  ensure (is_completable u.state) (cannot_complete_task u.state)
  pure (record u {
    info = record u.info { state = t.state; completed_at = t.completed_at; result = t.result };
  })

-- `u.Context.Tasks[t.Var] = t.Result`, if there is a result and a variable for it
unfoldable pub with_result : Task → Job → Job
with_result t u =
    if not (str_eq t.result "") && not (str_eq t.var "")
    then record u { context = record u.context { tasks = insert t.var t.result u.context.tasks } }
    else u

unfoldable pub record_result : Task → M (Unit {0})
unfolding with_result
record_result t =
    if not (str_eq t.result "") && not (str_eq t.var "")
    then update_job t.job_id (λ u. pure (with_result t u))
    else pure tt

-- The next task of an each with a bound on concurrency goes to the broker. This is done on another
-- connection than that of the transaction.
unfoldable pub fire_next : String → M (Unit {0})
fire_next parent_id = do
  next ← get_next_task_outside parent_id
  let next' = record next { info = record next.info { state = TaskState.pending } }
  update_task_outside next.id
      λ nu. record nu { info = record nu.info { state = TaskState.pending } }
  publish_task queue_pending next'

-- `u.Each.Completions >= u.Each.Size`, after the count of one more
unfoldable pub all_complete : EachInfo → Bool
all_complete e = leb e.size (e.completions + 1)

-- `!isLast && u.Each.Concurrency > 0 && u.Each.Index < u.Each.Size`
unfoldable pub fires_next : EachInfo → Bool
unfolding all_complete
fires_next e = not (all_complete e) && ltb 0 e.concurrency && ltb e.index e.size

unfoldable pub counted : EachInfo → EachInfo
counted e = record e { completions = e.completions + 1; index = e.index + 1 }

-- One more of the tasks of an each is complete; the answer is whether it was the last one.
unfoldable pub count_each : Task → M (Task × Bool)
unfolding all_complete fires_next counted
count_each u = elim u.each [
  | no_each ↦ fail panic
  | each_task e n ↦ do
    (if fires_next e then fire_next u.id else pure tt)
    pure (record u { each = each_task (counted e) n }, all_complete e)
]

unfoldable pub count_parallel : Task → M (Task × Bool)
count_parallel u = elim u.parallel [
  | no_parallel ↦ fail panic
  | parallel_task tasks completions ↦ pure (
    record u { parallel = parallel_task tasks (completions + 1) },
    leb (length (node_list tasks)) (completions + 1),
  )
]

-- The rounded quotient of two numbers, halves going up.
unfoldable pub round_div : ℕ → ℕ → ℕ
round_div a b = (2 * a + b) / (2 * b)

-- The job moves on to its next position. Its progress, in hundredths of a percent, is what it was
-- before the move.
unfoldable pub advance_job : Task → Job → Job
unfolding with_result round_div
advance_job t u =
    with_result t (record u {
      progress = round_div (u.position * 10000) u.task_count;
      position = u.position + 1;
    })

-- The transaction of `completeEachTask` and `completeParallelTask`, which differ in `count`.
unfoldable pub complete_member : (Task → M (Task × Bool)) → Task → M Bool
unfolding complete_row
complete_member count t = with_tx (do
  update_task t.id (complete_row t)
  is_last ← update_task_returning t.parent_id count
  record_result t
  pure is_last)

unfoldable pub is_completion : TaskState → Bool
is_completion TaskState.completed = true
is_completion TaskState.skipped = true
is_completion _ = false

-- The transaction of `completeTopLevelTask`.
unfoldable pub advance : Task → M (Unit {0})
unfolding complete_row advance_job
advance t =
    with_tx
      (do update_task t.id (complete_row t); update_job t.job_id (λ u. pure (advance_job t u)))

module _ (env : Env) where
  -- What follows that transaction: the next task, or the end of the job.
  unfoldable pub move_on : Task → M (Unit {0})
  unfolding task_at
  move_on t = do
    j ← get_job t.job_id
    Jobs.handle env progress j
    now ← time_now env
    if leb j.position (length j.tasks)
        then (do
          next ← task_at j j.position
          id ← new_uuid env
          let next' = evaluate_or_fail env j now (place_task j j.position now id next)
          create_task env next'
          publish_task queue_pending next')
        else Jobs.handle env state_change
            (record j { state = JobState.completed; completed_at = some now })

  unfoldable pub complete_top_level_task : Task → M (Unit {0})
  complete_top_level_task t = advance t >> move_on t

  -- The parent as it is handed on when the last of its tasks is complete.
  unfoldable pub complete_parent : (Task → M (Unit {0})) → Task → M (Unit {0})
  complete_parent again t = do
    parent ← get_task t.parent_id
    now ← time_now env
    again (record parent {
      info = record parent.info { state = TaskState.completed; completed_at = some now };
    })

  -- `again` is `completeTask`.
  unfoldable pub complete_each_task : (Task → M (Unit {0})) → Task → M (Unit {0})
  unfolding count_each
  complete_each_task again t = do
    is_last ← complete_member count_each t
    if is_last then complete_parent again t else pure tt

  unfoldable pub complete_parallel_task : (Task → M (Unit {0})) → Task → M (Unit {0})
  unfolding count_parallel
  complete_parallel_task again t = do
    is_last ← complete_member count_parallel t
    if is_last then complete_parent again t else pure tt

  unfoldable pub complete_sub_task : (Task → M (Unit {0})) → Task → M (Unit {0})
  complete_sub_task again t = do
    parent ← get_task t.parent_id
    elim parent.parallel [
      | parallel_task _ _ ↦ complete_parallel_task again t
      | no_parallel ↦ complete_each_task again t
    ]

  -- `completeTask`, with fuel for the parents of parents.
  unfoldable pub complete_task : ℕ → Task → M (Unit {0})
  complete_task zero t = fail out_of_fuel
  complete_task (suc fuel) t =
      if str_eq t.parent_id ""
      then complete_top_level_task t
      else complete_sub_task (complete_task fuel) t

  unfoldable pub handle : ℕ → Task → M (Unit {0})
  unfolding is_completion
  handle fuel t = do
    now ← time_now env
    ensure (is_completion t.state) (invalid_completion_state t.state)
    complete_task fuel (record t { info = record t.info { completed_at = some now } })
