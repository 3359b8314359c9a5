-- ===== src/Scheduler/Regular/Scheduled.antt =====
-- What becomes of a task that runs on a worker.
use tork.Prelude.{◌≡◌, ◌≢◌, arith, some, [], ◌∷◌, ◌++◌, eq_iff}
use tork.Task.{Task, TaskState}
use tork.Job.{Job, JobDefaults}
use tork.Broker.Queues.{queue_default}
use tork.Exec.{World, Env, ok, task_message}
use tork.Datastore.{find_row, task_key, job_key, update_task, get_job}
use tork.Datastore.Rows.{key-find_row, find_row-write_row_self}
use tork.Scheduler.Regular.{schedule_regular_task, apply_defaults, mark_scheduled}

-- What is sent for a task.
abbrev pub sent_task : Env → World → Job → Task → Task
sent_task env w j t = mark_scheduled (env.now w.readings) (apply_defaults j.defaults t)

-- The row that goes with it.
abbrev pub scheduled_row : Task → Task → Task
scheduled_row s u = record u {
  info = record u.info {
    state = s.state;
    scheduled_at = s.scheduled_at;
    queue = s.queue;
    limits = s.limits;
    timeout = s.timeout;
    retry = s.retry;
    priority = s.priority;
  };
}

sent_task-queue : (env : Env) (w : World) (j : Job) (t : Task) → (sent_task env w j t).queue ≢ ""
unfolding mark_scheduled
sent_task-queue env w j t =
    ground (arith, eq_iff (apply_defaults j.defaults t).queue "", eq_iff queue_default "")

-- A task whose row and job are found is sent once, as SCHEDULED and to a queue with a name, and its row
-- has the state, the time and the settings that were sent.
pub schedule_regular_task-ok :
    (env : Env) (t u : Task) (j : Job) (w : World)
    → find_row task_key t.id w.db.tasks ≡ some u
    → find_row job_key t.job_id w.db.jobs ≡ some j
    → let s = sent_task env w j t in
      ((schedule_regular_task env t w).0 ≡ ok tt)
      × ((schedule_regular_task env t w).1.sent ≡ w.sent ++ task_message s.queue s ∷ [])
      × (s.queue ≢ "")
      × (s.state ≡ TaskState.scheduled)
      × (find_row task_key t.id (schedule_regular_task env t w).1.db.tasks
          ≡ some (scheduled_row s u))
unfolding schedule_regular_task update_task get_job mark_scheduled
schedule_regular_task-ok env t u j w task_found job_found = ground (
  arith,
  sent_task-queue env w j t,
  key-find_row task_key t.id w.db.tasks u task_found,
  find_row-write_row_self task_key t.id (scheduled_row (sent_task env w j t) u) w.db.tasks u
      (key-find_row task_key t.id w.db.tasks u task_found) task_found,
)

-- To apply the defaults of a job twice is to apply them once.
pub apply_defaults_idempotent :
    (d : JobDefaults) (t : Task)
    → apply_defaults (some d) (apply_defaults (some d) t) ≡ apply_defaults (some d) t
unfolding apply_defaults
apply_defaults_idempotent d t = ground arith
