-- ===== src/Scheduler.antt =====
-- internal/coordinator/scheduler/scheduler.go: how a pending task is set to work.
pub mod Common
pub mod Regular
pub mod SubJob
pub mod Each
pub mod Parallel
use tork.Scheduler.Regular.{schedule_regular_task}
use tork.Scheduler.SubJob.{schedule_subjob}
use tork.Scheduler.Each.{schedule_each_task}
use tork.Scheduler.Parallel.{schedule_parallel_task}
use tork.Prelude.{
  ℕ, suc, zero, ◌+◌, String, Bool, true, false, not, ◌&&◌, ◌||◌, Option, none, some, List, [], ◌∷◌,
  ◌++◌, length, Dict, insert, ltb, ◌==◌, str_eq, if◌then◌else◌,
}
use tork.User.{Time}
use tork.Task.{
  TaskState, TaskRetry, TaskLimits, TaskInfo, EachInfo, SubJobInfo, TaskNode, TaskNodes,
  parallel_task, each_task, subjob_task, no_parallel, no_each, no_subjob, Task, to_node, of_node,
  tasks_of, nodes_of,
}
use tork.Task.Clone
use tork.Job.{JobState, JobContext, JobDefaults, Job}
use tork.Eval
use tork.Eval.{Value, Values, Scope, evaluate_expr, evaluate_task}
use tork.Broker.Queues.{queue_pending, queue_completed, queue_error, queue_default}
use tork.Exec.{
  Env, M, World, panic, pure, fail, gets, ◌>>=◌, ◌>>◌, time_now, new_uuid, publish_task,
  publish_job,
}
use tork.Datastore.{get_job, update_task, create_task, create_job}

module _ (env : Env) where
  -- `ScheduleTask`
  unfoldable pub schedule_task : Task → M (Unit {0})
  unfolding schedule_parallel_task schedule_each_task schedule_subjob schedule_regular_task
  schedule_task t = elim t.parallel [
    | parallel_task tasks completions ↦ schedule_parallel_task env t tasks completions
    | no_parallel ↦ elim t.each [
      | each_task e n ↦ schedule_each_task env t e n
      | no_each ↦ elim t.subjob [
        | subjob_task s tasks ↦ schedule_subjob env t s tasks
        | no_subjob ↦ schedule_regular_task env t
      ]
    ]
  ]
