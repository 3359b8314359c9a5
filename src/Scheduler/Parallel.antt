-- ===== src/Scheduler/Parallel.antt =====
-- `scheduleParallelTask` of internal/coordinator/scheduler/scheduler.go.
use tork.Scheduler.Common.{as_map, report_failure}
use tork.Prelude.{ℕ, String, none, some, List, [], ◌∷◌, ◌++◌}
use tork.User.{Time}
use tork.Task.{TaskState, TaskNodes, parallel_task, Task, tasks_of, nodes_of}
use tork.Job.{Job}
use tork.Eval.{evaluate_task}
use tork.Broker.Queues.{queue_pending}
use tork.Exec.{Env, M, pure, ◌>>=◌, ◌>>◌, time_now, new_uuid, publish_task}
use tork.Datastore.{get_job, update_task, create_task}

unfoldable pub parallel_instance : Task → Job → Time → String → Task → Task
parallel_instance t j now id p = record p {
  info = record p.info {
    id = id;
    job_id = j.id;
    state = TaskState.pending;
    position = t.position;
    created_at = some now;
    parent_id = t.id;
  };
}

module _ (env : Env) where
  -- The tasks of the list are changed in place: a report of failure shows those that were reached.
  unfoldable pub parallel_loop : Task → ℕ → Job → Time → List Task → List Task → M (Unit {0})
  unfolding parallel_instance evaluate_task create_task
  parallel_loop t completions j now reached [] = pure tt
  parallel_loop t completions j now reached (p ∷ ps) = do
    id ← new_uuid env
    let (pt, failure) =
        evaluate_task env.evaluator (as_map j.context) (parallel_instance t j now id p)
    elim failure [
      | some x ↦
          report_failure
            (record t { parallel = parallel_task (nodes_of (reached ++ pt ∷ ps)) completions }) x
      | none ↦ do
        create_task env pt
        publish_task queue_pending pt
        parallel_loop t completions j now (reached ++ pt ∷ []) ps
    ]

  unfoldable pub schedule_parallel_task : Task → TaskNodes → ℕ → M (Unit {0})
  unfolding parallel_loop get_job update_task
  schedule_parallel_task t tasks completions = do
    now ← time_now env
    update_task t.id λ u. pure (record u {
      info = record u.info {
        state = TaskState.running;
        scheduled_at = some now;
        started_at = some now;
      };
    })
    j ← get_job t.job_id
    parallel_loop t completions j now [] (tasks_of tasks)
