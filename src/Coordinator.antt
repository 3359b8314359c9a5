-- ===== src/Coordinator.antt =====
-- internal/coordinator/coordinator.go: the queues of a coordinator and the handlers at their ends, with
-- no middleware.
use tork.Prelude.{
  ℕ, zero, suc, ◌+◌, String, Bool, true, false, not, Option, none, some, List, [], ◌∷◌, ◌++◌, Dict,
  insert, ltb, str_eq, if◌then◌else◌,
}
use tork.Task.{TaskState, Task}
use tork.Job.{JobState, Job}
use tork.Eval
use tork.Broker.Queues.{
  queue_pending, queue_started, queue_completed, queue_error, queue_heartbeat, queue_jobs,
  queue_logs, queue_progress, is_coordinator_queue,
}
use tork.Exec.{
  Env, M, Error, Message, task_message, job_message, event_message, schedule_message,
  heartbeat_message, log_message, progress_message, pure,
}
use tork.Handlers.Pending
use tork.Handlers.Completed
use tork.Handlers.Started
use tork.Handlers.Errors
use tork.Handlers.Jobs
use tork.Handlers.Jobs.{state_change}
use tork.Handlers.Heartbeats
use tork.Handlers.Progress
use tork.Handlers.Progress.{hundredths}
pub mod Wired
pub mod Cancelled

-- `cfg.Queues[qname]`, where a missing key reads as 0
unfoldable pub queue_count : String → Dict ℕ → ℕ
queue_count qname [] = 0
queue_count qname ((k, n) ∷ rest) = if str_eq k qname then n else queue_count qname rest

unfoldable pub at_least_one : String → Dict ℕ → Dict ℕ
unfolding queue_count
at_least_one qname qs = if ltb (queue_count qname qs) 1 then insert qname 1 qs else qs

unfoldable pub at_least_one_each : List String → Dict ℕ → Dict ℕ
at_least_one_each [] qs = qs
at_least_one_each (q ∷ rest) qs = at_least_one_each rest (at_least_one q qs)

-- NewCoordinator
unfoldable pub with_queues : Dict ℕ → Dict ℕ
unfolding at_least_one_each
with_queues qs =
    at_least_one_each
      (queue_completed ∷ queue_error ∷ queue_pending ∷ queue_started ∷ queue_heartbeat ∷ queue_jobs
        ∷ queue_logs ∷ queue_progress ∷ [])
      qs

-- The handlers that Start subscribes.
pub data Handler : Type 0 where
  on_pending on_completed on_started on_error on_heartbeat on_job on_log_part on_progress : Handler

unfoldable pub handler_of : String → Option Handler
handler_of qname =
    if str_eq qname queue_pending
    then some on_pending
    else if str_eq qname queue_completed
    then some on_completed
    else if str_eq qname queue_started
    then some on_started
    else if str_eq qname queue_error
    then some on_error
    else if str_eq qname queue_heartbeat
    then some on_heartbeat
    else if str_eq qname queue_jobs
    then some on_job
    else if str_eq qname queue_logs
    then some on_log_part
    else if str_eq qname queue_progress
    then some on_progress
    else none

subscribe_times : ℕ → String → List (String × Option Handler)
unfolding handler_of
subscribe_times zero qname = []
subscribe_times (suc n) qname = (qname, handler_of qname) ∷ subscribe_times n qname

-- Start: each queue of the coordinator as often as its count says
unfoldable pub start : Dict ℕ → List (String × Option Handler)
unfolding subscribe_times
start [] = []
start ((qname, conc) ∷ qs) =
    let rest = start qs in
    if not (is_coordinator_queue qname) then rest else subscribe_times conc qname ++ rest

module _ (env : Env) where
  -- `taskHandler`: a task whose handler fails is failed. It is the task as it was received: what the
  -- handler wrote on its own copy before it failed is left out.
  unfoldable pub task_handler : (Task → M (Unit {0})) → Task → M (Unit {0})
  task_handler handler t w =
      let (r, v) = handler t w in
      elim r [
        | Eval.Result.ok done ↦ (Eval.Result.ok tt, v)
        | Eval.Result.err e ↦
            Errors.handle env
              (record t {
                info = record t.info {
                  failed_at = some (env.now v.readings);
                  state = TaskState.failed;
                  error = env.message e;
                };
              })
              (record v { readings = v.readings + 1 })
      ]

  -- `jobHandler`: a job whose handler fails is failed, again as it was received
  unfoldable pub job_handler : (Job → M (Unit {0})) → Job → M (Unit {0})
  job_handler handler j w =
      let (r, v) = handler j w in
      elim r [
        | Eval.Result.ok done ↦ (Eval.Result.ok tt, v)
        | Eval.Result.err e ↦
            Jobs.handle env state_change
              (record j { failed_at = some (env.now v.readings); state = JobState.failed })
              (record v { readings = v.readings + 1 })
      ]

  -- What the coordinator does with a task from a queue. A queue of workers is none of its own.
  unfoldable pub on_task : ℕ → Option Handler → Task → M (Unit {0})
  on_task fuel (some on_pending) t = task_handler (Pending.handle env) t
  on_task fuel (some on_completed) t = task_handler (Completed.handle env fuel) t
  on_task fuel (some on_started) t = task_handler (Started.handle env) t
  on_task fuel (some on_error) t = task_handler (Errors.handle env) t
  on_task fuel other t = pure tt

  -- What the coordinator does with a message. `fuel` is for the handler of completed tasks. Events go to
  -- their subscribers.
  unfoldable pub receive : ℕ → Message → M (Unit {0})
  unfolding on_task handler_of
  receive fuel (task_message qname t) = on_task fuel (handler_of qname) t
  receive fuel (job_message j) = job_handler (Jobs.handle env state_change) j
  receive fuel (heartbeat_message n) = Heartbeats.handle env n
  receive fuel (log_message p) = Progress.handle_log_part env p
  receive fuel (progress_message t) = task_handler (Progress.handle env (hundredths t.progress)) t
  receive fuel (event_message topic j) = pure tt
  receive fuel (schedule_message topic s) = pure tt
