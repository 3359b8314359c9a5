-- ===== src/Worker.antt =====
-- internal/worker/worker.go: a worker takes a task from a queue, runs it, and tells the coordinator.
-- The runtime and the middleware are given.
use Prim.Native.String.{◌++◌ as str_append}
use tork.Prelude.{
  ℕ, zero, suc, ◌+◌, ◌-◌, ◌==◌, String, Bool, true, false, not, ◌&&◌, ◌||◌, Option, none, some,
  List, [], ◌∷◌, ◌++◌, Dict, insert, str_eq, if◌then◌else◌,
}
use tork.User.{Time}
use tork.Task.{TaskState, TaskLimits, Task}
use tork.Task.Clone
use tork.Node.{Node, NodeStatus}
use tork.Eval
use tork.Broker.Queues.{
  queue_started, queue_completed, queue_error, queue_default, queue_exclusive_prefix,
  is_worker_queue,
}
use tork.Exec.{
  World, Env, Message, task_message, heartbeat_message, Result, Error, ok, err, invalid_duration,
  unexpected_state, panic,
}
pub mod Start
pub mod Ports
pub mod Reports

pub record Limits : Type 0 where
  pub default_cpus_limit : String
  pub default_memory_limit : String
  pub default_timeout : String

-- `tasks` are those that run, `cancelled` those of them that were told to stop.
pub record Worker : Type 0 where
  pub id : String
  pub name : String
  pub start_time : Time
  pub queues : Dict ℕ
  pub tasks : Dict Task
  pub cancelled : List String
  pub limits : Limits
  pub task_count : ℕ
  pub used_ports : List ℕ

-- What a worker and the world around it are after an action.
abbrev pub Act : Type 0 → Type 0
Act A = Worker → World → Result A × Worker × World

-- `run` is the method of the runtime, which changes the task and answers an error; the task as it is
-- changed is what the caller sees. `parses` is whether `time.ParseDuration` succeeds.
pub record Runtime : Type 0 where
  pub run : Task → Option String × Task
  pub healthy : Bool
  pub parses : String → Bool
  pub hostname : String
  pub cpu_percent : ℕ
  pub port : ℕ
  pub version : String

abbrev pub lookup_task : String → Dict Task → Option Task
lookup_task key [] = none
lookup_task key ((k, t) ∷ rest) = if str_eq k key then some t else lookup_task key rest

unfoldable pub remove_task : String → Dict Task → Dict Task
remove_task key [] = []
remove_task key ((k, t) ∷ rest) =
    let others = remove_task key rest in if str_eq k key then others else (k, t) ∷ others

-- NewWorker: without queues, one subscriber of the default queue
unfoldable pub with_default_queues : Dict ℕ → Dict ℕ
with_default_queues [] = (queue_default, 1) ∷ []
with_default_queues (q ∷ qs) = q ∷ qs

-- A task that is not known is left alone.
unfoldable pub cancel_task : Task → Act (Unit {0})
unfolding remove_task
cancel_task t wk w = elim (lookup_task t.id wk.tasks) [
  | none ↦ (ok tt, wk, w)
  | some rt ↦ (
    ok tt,
    record wk { tasks = remove_task t.id wk.tasks; cancelled = wk.cancelled ++ t.id ∷ [] },
    w,
  )
]

-- `t.Limits`, with the defaults where there is none
unfoldable pub or_limits : Limits → Option TaskLimits → Option TaskLimits
or_limits d none =
    if not (str_eq d.default_cpus_limit "") || not (str_eq d.default_memory_limit "")
    then some (record { cpus = d.default_cpus_limit; memory = d.default_memory_limit })
    else none
or_limits d (some l) = some (record {
  cpus = if str_eq l.cpus "" then d.default_cpus_limit else l.cpus;
  memory = if str_eq l.memory "" then d.default_memory_limit else l.memory;
})

-- The task as the worker takes it.
unfoldable pub prepare : Worker → Time → Task → Task
unfolding or_limits
prepare wk started t = record t {
  info = record t.info {
    started_at = some started;
    node_id = wk.id;
    state = TaskState.running;
    limits = or_limits wk.limits t.limits;
    timeout = if str_eq t.timeout "" then wk.limits.default_timeout else t.timeout;
  };
}

abbrev pub send : Message → World → World
send m w = record w { sent = w.sent ++ m ∷ [] }

abbrev pub tick : World → World
tick w = record w { readings = w.readings + 1 }

module _ (env : Env) (runtime : Runtime) where
  -- The task after the runtime is done with it, and what it answered.
  unfoldable pub finish_run : Option String → Task → Act Task
  finish_run (some e) t wk w = (
    ok (record t {
      info = record t.info {
        failed_at = some (env.now w.readings);
        state = TaskState.failed;
        error = e;
      };
    }),
    wk,
    tick w,
  )
  finish_run none t wk w = (
    ok (record t {
      info = record t.info {
        completed_at = some (env.now w.readings);
        state = TaskState.completed;
      };
    }),
    wk,
    tick w,
  )

  -- An error of the runtime is in the task, and is not an error here.
  unfoldable pub do_run_task : Task → Act Task
  unfolding finish_run
  do_run_task t wk w =
      if not (str_eq t.timeout "") && not (runtime.parses t.timeout)
      then (err invalid_duration, wk, w)
      else (let (failure, t') = runtime.run t in finish_run failure t' wk w)

  -- The deferred statements run whatever the outcome.
  unfoldable pub run_task : Task → Act Task
  unfolding do_run_task remove_task
  run_task t wk w =
      let busy = record wk { task_count = wk.task_count + 1; tasks = insert t.id t wk.tasks } in
      let (r, wk', w') = do_run_task t busy (send (task_message queue_started t) w) in
      (r, record wk' { task_count = wk'.task_count - 1; tasks = remove_task t.id wk'.tasks }, w')

  abbrev pub HandlerFunc : Type 0
  HandlerFunc = Task → Act Task

  -- `task.ApplyMiddleware`: the first of the list is the outermost
  unfoldable pub apply_middleware : HandlerFunc → List (HandlerFunc → HandlerFunc) → HandlerFunc
  apply_middleware h [] = h
  apply_middleware h (m ∷ ms) = m (apply_middleware h ms)

  -- What is sent when the task has been run, and the result of handling it. `rt` is the copy that was
  -- run.
  unfoldable pub report : Task → Task → World → Result (Unit {0}) × World
  report t rt w = elim rt.state [
    | TaskState.completed ↦ (
      ok tt,
      send
          (task_message queue_completed (record t {
            info = record t.info {
              result = rt.result;
              completed_at = rt.completed_at;
              state = rt.state;
            };
          }))
          w,
    )
    | TaskState.failed ↦ (
      ok tt,
      send
          (task_message queue_error (record t {
            info = record t.info { error = rt.error; failed_at = rt.failed_at; state = rt.state };
          }))
          w,
    )
    | _ ↦ (err (unexpected_state rt.state), w)
  ]

  unfoldable pub report_error : Task → Error → World → Result (Unit {0}) × World
  report_error t e w = (
    ok tt,
    send
        (task_message queue_error (record t {
          info = record t.info {
            error = env.message e;
            failed_at = some (env.now w.readings);
            state = TaskState.failed;
          };
        }))
        (tick w),
  )

  unfoldable pub report_result : Task → Result Task → World → Result (Unit {0}) × World
  unfolding report report_error
  report_result t (Eval.Result.err e) w = report_error t e w
  report_result t (Eval.Result.ok rt) w = report t rt w

  -- `doHandleTask`
  unfoldable pub handle_task : List (HandlerFunc → HandlerFunc) → Task → Act (Unit {0})
  unfolding prepare run_task apply_middleware report_result
  handle_task middleware t wk w =
      let t' = prepare wk (env.now w.readings) t in
      let (r, wk', w') = apply_middleware run_task middleware (Clone.clone t') wk (tick w) in
      let (outcome, v) = report_result t' r w' in (outcome, wk', v)

  -- One round of `sendHeartbeats`.
  unfoldable pub send_heartbeat : Act (Unit {0})
  send_heartbeat wk w = (
    ok tt,
    wk,
    send
        (heartbeat_message (record {
          id = wk.id;
          name = wk.name;
          started_at = wk.start_time;
          cpu_percent = runtime.cpu_percent;
          last_heartbeat_at = env.now w.readings;
          queue = str_append queue_exclusive_prefix wk.id;
          status = if runtime.healthy then NodeStatus.up else NodeStatus.down;
          hostname = runtime.hostname;
          port = runtime.port;
          task_count = wk.task_count;
          version = runtime.version;
        }))
        (tick w),
  )
