-- ===== src/Handlers/Started.antt =====
-- internal/coordinator/handlers/started.go, with no middleware
pub mod Row
use tork.Prelude.{Bool, true, false, not, ◌&&◌, some, if◌then◌else◌}
use tork.Task.{TaskState, Task}
use tork.Job.{JobState}
use tork.Exec.{Env, M, pure, ◌>>=◌, ◌>>◌, time_now, publish_task}
use tork.Datastore.{get_job, get_node, update_task}
use tork.Handlers.States.{is_running, is_scheduled}
use tork.Handlers.Jobs
use tork.Handlers.Jobs.{state_change, progress}

abbrev pub is_task_scheduled : TaskState → Bool
is_task_scheduled TaskState.scheduled = true
is_task_scheduled _ = false

-- A row that is not SCHEDULED any more only learns the node.
unfoldable pub start_row : Env → Task → Task → M Task
start_row env t u =
    if is_task_scheduled u.state
    then (do
      now ← time_now env
      pure (record u {
        info = record u.info {
          state = TaskState.running;
          started_at = some now;
          node_id = t.node_id;
        };
      }))
    else pure (record u { info = record u.info { node_id = t.node_id } })

module _ (env : Env) where
  unfoldable pub handle : Task → M (Unit {0})
  handle t = do
    j ← get_job t.job_id
    if not (is_running j.state) && not (is_scheduled j.state)
        then (do
          node ← get_node env t.node_id
          publish_task node.queue
              (record t { info = record t.info { state = TaskState.cancelled } }))
        else (do
          (if is_scheduled j.state
              then Jobs.handle env state_change (record j { state = JobState.running })
              else pure tt)
          update_task t.id (start_row env t))
