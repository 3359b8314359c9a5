-- ===== src/Scheduler/Regular.antt =====
-- `scheduleRegularTask` of internal/coordinator/scheduler/scheduler.go.
pub mod Scheduled
use tork.Prelude.{ℕ, String, Option, none, some, ◌==◌, str_eq, if◌then◌else◌}
use tork.User.{Time}
use tork.Task.{TaskState, TaskRetry, TaskLimits, Task}
use tork.Job.{JobDefaults}
use tork.Broker.Queues.{queue_default}
use tork.Exec.{Env, M, pure, ◌>>=◌, ◌>>◌, time_now, publish_task}
use tork.Datastore.{get_job, update_task}

or_text : String → String → String
or_text s d = if str_eq s "" then d else s

or_number : ℕ → ℕ → ℕ
or_number n d = if n == 0 then d else n

or_limits : Option TaskLimits → Option TaskLimits → Option TaskLimits
unfolding or_text
or_limits t none = t
or_limits none (some d) = some (record { cpus = d.cpus; memory = d.memory })
or_limits (some t) (some d) =
    some (record { cpus = or_text t.cpus d.cpus; memory = or_text t.memory d.memory })

or_retry : Option TaskRetry → Option TaskRetry → Option TaskRetry
unfolding or_number
or_retry t none = t
or_retry none (some d) = some (record { limit = d.limit; attempts = 0 })
or_retry (some t) (some d) = some (record t { limit = or_number t.limit d.limit })

-- The job-level defaults.
unfoldable pub apply_defaults : Option JobDefaults → Task → Task
unfolding or_text or_number or_limits or_retry
apply_defaults none t = t
apply_defaults (some d) t = record t {
  info = record t.info {
    queue = or_text t.queue d.queue;
    limits = or_limits t.limits d.limits;
    timeout = or_text t.timeout d.timeout;
    retry = or_retry t.retry d.retry;
    priority = or_number t.priority d.priority;
  };
}

unfoldable pub mark_scheduled : Time → Task → Task
unfolding or_text
mark_scheduled now t = record t {
  info = record t.info {
    queue = or_text t.queue queue_default;
    state = TaskState.scheduled;
    scheduled_at = some now;
  };
}

module _ (env : Env) where
  unfoldable pub schedule_regular_task : Task → M (Unit {0})
  unfolding apply_defaults mark_scheduled get_job update_task
  schedule_regular_task t = do
    now ← time_now env
    job ← get_job t.job_id
    let t' = mark_scheduled now (apply_defaults job.defaults t)
    update_task t.id λ u. pure (record u {
      info = record u.info {
        state = t'.state;
        scheduled_at = t'.scheduled_at;
        queue = t'.queue;
        limits = t'.limits;
        timeout = t'.timeout;
        retry = t'.retry;
        priority = t'.priority;
      };
    })
    publish_task t'.queue t'
