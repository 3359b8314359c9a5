-- ===== src/Worker/Reports.antt =====
-- What a worker tells the coordinator.
use mathlib.Core.Path.{subst}
use tork.Prelude.{
  ◌≢◌, eq_iff, ◌+◌, ◌-◌, String, Bool, true, false, not, ◌&&◌, Option, none, some, [], ◌∷◌, ◌++◌,
  insert, ◌≡◌, refl, ap, ◌∙◌, arith, str_eq, if◌then◌else◌,
}
use tork.User.{Time}
use tork.Task.{TaskState, Task}
use tork.Task.Clone
use tork.Task.Clone.{clone-eq}
use tork.Broker.Queues.{queue_started, queue_completed, queue_error}
use tork.Exec.{World, Env, Result, Message, task_message, ok, err, invalid_duration}
use tork.Worker.{
  Worker, Runtime, prepare, send, tick, finish_run, do_run_task, run_task, apply_middleware, report,
  report_error, report_result, handle_task,
}

-- The timeout of a task is none or one that parses, and the task is run.
pub data IsRun (runtime : Runtime) (x : Task) : Type 0 where
  untimed : x.timeout ≡ "" → IsRun runtime x
  parsed : runtime.parses x.timeout ≡ true → IsRun runtime x

-- What is told of a task `t`, of which `x` is given to the runtime: its result, its error, or that its
-- timeout does not parse.
pub data IsOutcome (env : Env) (runtime : Runtime) (t x : Task) : Message → Type 0 where
  done :
      (time : Time)
      → IsRun runtime x
      → (runtime.run x).0 ≡ none
      → IsOutcome env runtime t x (
          task_message queue_completed (record t {
            info = record t.info {
              result = (runtime.run x).1.result;
              completed_at = some time;
              state = TaskState.completed;
            };
          }))
  broken :
      (error : String) (time : Time)
      → IsRun runtime x
      → (runtime.run x).0 ≡ some error
      → IsOutcome env runtime t x (
          task_message queue_error (record t {
            info = record t.info { error = error; failed_at = some time; state = TaskState.failed };
          }))
  refused :
      (time : Time)
      → x.timeout ≢ ""
      → runtime.parses x.timeout ≡ false
      → IsOutcome env runtime t x (
          task_message queue_error (record t {
            info = record t.info {
              error = env.message invalid_duration;
              failed_at = some time;
              state = TaskState.failed;
            };
          }))

-- What a run of a task comes to.
data RunsTo (runtime : Runtime) (x : Task) : Result Task → Type 0 where
  unparsed :
      x.timeout ≢ "" → runtime.parses x.timeout ≡ false → RunsTo runtime x (err invalid_duration)
  finished :
      (time : Time)
      → IsRun runtime x
      → (runtime.run x).0 ≡ none
      → RunsTo runtime x (
          ok (record (runtime.run x).1 {
            info = record (runtime.run x).1.info {
              completed_at = some time;
              state = TaskState.completed;
            };
          }))
  stopped :
      (time : Time) (error : String)
      → IsRun runtime x
      → (runtime.run x).0 ≡ some error
      → RunsTo runtime x (
          ok (record (runtime.run x).1 {
            info = record (runtime.run x).1.info {
              failed_at = some time;
              state = TaskState.failed;
              error = error;
            };
          }))

-- The result of a run, with the worker and what was sent as they were.
abbrev Ran : Runtime → Task → Worker → World → Result Task × Worker × World → Type 0
Ran runtime x wk w z = RunsTo runtime x z.0 × (z.1 ≡ wk) × (z.2.sent ≡ w.sent)

module _ (env : Env) (runtime : Runtime) where
  finish_run-Ran :
      (failure : Option String) (x : Task) (wk : Worker) (w : World)
      → IsRun runtime x
      → (runtime.run x).0 ≡ failure
      → Ran runtime x wk w (finish_run env runtime failure (runtime.run x).1 wk w)
  unfolding finish_run
  finish_run-Ran (some e) x wk w runs h = (stopped (env.now w.readings) e runs h, refl, refl)
  finish_run-Ran none x wk w runs h = (finished (env.now w.readings) runs h, refl, refl)

  by_timeout :
      (b p : Bool) (x : Task) (wk : Worker) (w : World)
      → str_eq x.timeout "" ≡ b
      → runtime.parses x.timeout ≡ p
      → Ran runtime x wk w (
          if not b && not p
          then (err invalid_duration, wk, w)
          else finish_run env runtime (runtime.run x).0 (runtime.run x).1 wk w)
  by_timeout true p x wk w blank parses =
      finish_run-Ran (runtime.run x).0 x wk w (untimed (ground (arith, blank, eq_iff x.timeout "")))
        refl
  by_timeout false true x wk w named parses =
      finish_run-Ran (runtime.run x).0 x wk w (parsed parses) refl
  by_timeout false false x wk w named parses =
      (unparsed (λ e. ground (arith, named, eq_iff x.timeout "", e)) parses, refl, refl)

  do_run_task-Ran :
      (x : Task) (wk : Worker) (w : World) → Ran runtime x wk w (do_run_task env runtime x wk w)
  unfolding do_run_task
  do_run_task-Ran x wk w =
      by_timeout (str_eq x.timeout "") (runtime.parses x.timeout) x wk w refl refl

  -- The message and the result of a report.
  report_result-IsOutcome :
      (t x : Task) (r : Result Task) (w : World)
      → RunsTo runtime x r
      → let (o, v) = report_result env runtime t r w in
        (m : Message) × (o ≡ ok tt) × IsOutcome env runtime t x m × (v.sent ≡ w.sent ++ m ∷ [])
  unfolding report_result report report_error
  report_result-IsOutcome t x _ w (unparsed named bad) =
      (_, refl, refused (env.now w.readings) named bad, refl)
  report_result-IsOutcome t x _ w (finished time runs h) = (_, refl, done time runs h, refl)
  report_result-IsOutcome t x _ w (stopped time e runs h) = (_, refl, broken e time runs h, refl)

-- A worker without middleware that takes a task tells the coordinator that it started and then what
-- came of it: the result, on the queue of completed tasks, if the runtime answers no error, and else,
-- on the queue of errors, the error of the runtime, or that of a timeout that does not parse, with
-- which the task is not run. It fails with no error, and runs as many tasks as before.
pub handle_task-IsOutcome :
    (env : Env) (runtime : Runtime) (t : Task) (wk : Worker) (w : World)
    → let t' = prepare wk (env.now w.readings) t in
      let (r, wk', w') = handle_task env runtime [] t wk w in
      (m : Message) × (r ≡ ok tt)
      × IsOutcome env runtime t' t' m
      × (w'.sent ≡ (w.sent ++ task_message queue_started t' ∷ []) ++ m ∷ [])
      × (wk'.task_count ≡ wk.task_count)
unfolding handle_task run_task apply_middleware
handle_task-IsOutcome env runtime t wk w =
    let t' = prepare wk (env.now w.readings) t in
    let rt = Clone.clone t' in
    let busy : Worker = record wk {
      task_count = wk.task_count + 1;
      tasks = insert rt.id rt wk.tasks;
    } in
    let v = send (task_message queue_started rt) (tick w) in
    let (runs, kept, quiet) = do_run_task-Ran env runtime rt busy v in
    let (m, result, outcome, sent) =
      report_result-IsOutcome env runtime t' rt (do_run_task env runtime rt busy v).0
        (do_run_task env runtime rt busy v).2 runs in
    (
      m,
      result,
      subst (λ x. IsOutcome env runtime t' x m) (clone-eq t') outcome,
      sent
          ∙ ap (λ ms. ms ++ m ∷ []) quiet
          ∙ ap (λ x. (w.sent ++ task_message queue_started x ∷ []) ++ m ∷ []) (clone-eq t'),
      ap (λ x. x.task_count - 1) kept ∙ omega arith,
    )
