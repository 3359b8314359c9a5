-- ===== src/Handlers/Started/Row.antt =====
-- The row of a task that a worker has started.
use tork.Prelude.{some, if◌then◌else◌}
use tork.Task.{Task, TaskState}
use tork.Job.{Job}
use tork.Exec.{World, Env}
use tork.Handlers.Jobs
use tork.Handlers.Started.{is_task_scheduled}

-- A row that is SCHEDULED is RUNNING from then on, and any other row only learns the node.
abbrev pub started_row : Env → World → Task → Task → Task
started_row env w t u =
    if is_task_scheduled u.state
    then record u {
      info = record u.info {
        state = TaskState.running;
        started_at = some (env.now w.readings);
        node_id = t.node_id;
      };
    }
    else record u { info = record u.info { node_id = t.node_id } }
