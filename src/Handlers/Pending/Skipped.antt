-- ===== src/Handlers/Pending/Skipped.antt =====
-- A task whose condition is false.
use tork.Prelude.{◌≡◌, arith, some, [], ◌∷◌, ◌++◌, eq_iff}
use tork.Task.{Task, TaskState}
use tork.Broker.Queues.{queue_completed}
use tork.Exec.{World, Env, ok, task_message}
use tork.Datastore.{find_row, task_key, update_task, written_task}
use tork.Datastore.Rows.{key-find_row, find_row-write_row_self}
use tork.Handlers.Pending.{handle, skip_task}

-- The task as it is sent on.
abbrev pub skipped : Env → World → Task → Task
skipped env w t = record t {
  info = record t.info {
    state = TaskState.skipped;
    scheduled_at = some (env.now w.readings);
    started_at = some (env.now w.readings);
    completed_at = some (env.now w.readings);
  };
}

-- A task whose condition is "false" is not scheduled: it is sent, as SKIPPED, to the queue of completed
-- tasks and to no other, and its row is SKIPPED, but has no time of completion yet.
pub handle-skip :
    (env : Env) (t u : Task) (w : World)
    → env.trim_space t.if_ ≡ "false"
    → find_row task_key t.id w.db.tasks ≡ some u
    → ((handle env t w).0 ≡ ok tt)
      × ((handle env t w).1.sent ≡ w.sent ++ task_message queue_completed (skipped env w t) ∷ [])
      × (find_row task_key t.id (handle env t w).1.db.tasks
          ≡ some (record u {
            info = record u.info {
              state = TaskState.skipped;
              scheduled_at = some (env.now w.readings);
              started_at = some (env.now w.readings);
            };
          }))
unfolding handle skip_task update_task written_task
handle-skip env t u w cond found =
    let key = key-find_row task_key t.id w.db.tasks u found in
    let row : Task = record u {
      info = record u.info {
        state = TaskState.skipped;
        scheduled_at = some (env.now w.readings);
        started_at = some (env.now w.readings);
      };
    } in
    ground (
      arith,
      eq_iff (env.trim_space t.if_) "false",
      key,
      find_row-write_row_self task_key t.id row w.db.tasks u key found,
    )
