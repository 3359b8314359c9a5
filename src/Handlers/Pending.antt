-- ===== src/Handlers/Pending.antt =====
-- internal/coordinator/handlers/pending.go
pub mod Skipped
use tork.Prelude.{some, str_eq, if◌then◌else◌}
use tork.Task.{TaskState, Task}
use tork.Broker.Queues.{queue_completed}
use tork.Scheduler.{schedule_task}
use tork.Exec.{Env, M, pure, ◌>>=◌, ◌>>◌, time_now, publish_task}
use tork.Datastore.{update_task}

module _ (env : Env) where
  unfoldable pub skip_task : Task → M (Unit {0})
  skip_task t = do
    now ← time_now env
    let t' = record t {
      info = record t.info {
        state = TaskState.skipped;
        scheduled_at = some now;
        started_at = some now;
        completed_at = some now;
      };
    }
    update_task t.id λ u. pure (record u {
      info = record u.info {
        state = t'.state;
        scheduled_at = t'.scheduled_at;
        started_at = t'.started_at;
      };
    })
    publish_task queue_completed t'

  unfoldable pub handle : Task → M (Unit {0})
  handle t = if str_eq (env.trim_space t.if_) "false" then skip_task t else schedule_task env t
