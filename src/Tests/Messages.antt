-- ===== src/Tests/Messages.antt =====
-- Tasks that start or are skipped.
use tork.Prelude.{◌≡◌, refl, some, [], ◌∷◌}
use tork.Task.{Task, TaskState}
use tork.Exec.{World, ok, task_message}
use tork.Broker.Queues.{queue_completed}
use tork.Datastore.{find_row, task_key}
use tork.Handlers.Started
use tork.Handlers.Pending
use tork.Handlers.Pending.Skipped.{handle-skip, skipped}
use tork.Tests.Samples.{done_task, done_row, two_task_job, world_of, env}

-- The task is done when the message of its start arrives.
abbrev w : World
w = world_of (done_task ∷ []) (two_task_job ∷ [])

abbrev never : Task
never = record done_row { info = record done_row.info { if_ = "false"; state = TaskState.pending } }

abbrev w_never : World
w_never = world_of (never ∷ []) (two_task_job ∷ [])

never_found : find_row task_key "t1" w_never.db.tasks ≡ some never
unfolding find_row
never_found = refl

handle-skip_example :
    ((Pending.handle env never w_never).0 ≡ ok tt)
    × ((Pending.handle env never w_never).1.sent
        ≡ task_message queue_completed (skipped env w_never never) ∷ [])
    × (find_row task_key "t1" (Pending.handle env never w_never).1.db.tasks
        ≡ some (record never {
          info = record never.info {
            state = TaskState.skipped;
            scheduled_at = some 100;
            started_at = some 100;
          };
        }))
handle-skip_example = handle-skip env never never w_never refl never_found
