-- ===== src/Moves/Messages.antt =====
-- The coordinator, with any message that it receives, refines the machine of job states.
use tork.Prelude.{ℕ, ◌+◌, not, ◌&&◌, Option, some, List, refl, arith, if◌then◌else◌}
use tork.Task.{TaskState, Task, TaskLogPart}
use tork.Node.{Node}
use tork.Job.{JobState, Job}
use tork.Eval
use tork.Eval.{evaluate_task}
use tork.Exec.{
  World, Env, M, Error, Result, Message, task_message, job_message, event_message, schedule_message,
  heartbeat_message, log_message, progress_message, pure, ◌>>=◌, publish_task, time_now,
}
use tork.Datastore.{
  get_job, get_node, select_node, update_task, update_job, create_task, create_node, update_node,
}
use tork.Datastore.Logs.{create_task_log_part}
use tork.Handlers.States.{is_running, is_scheduled, is_under_way}
use tork.Handlers.Started
use tork.Handlers.Started.{start_row}
use tork.Handlers.Errors
use tork.Handlers.Errors.{retry_task, retry_of, fail_row, has_attempts}
use tork.Handlers.Jobs
use tork.Handlers.Jobs.{state_change, progress, dispatch}
use tork.Handlers.Heartbeats
use tork.Handlers.Progress
use tork.Handlers.Progress.{Reading, hundredths, clamp, overall}
use tork.Coordinator.{
  Handler, task_handler, job_handler, handler_of, on_task, receive, on_pending, on_completed,
  on_started, on_error,
}
use tork.Moves.{Moves, Moves-refl, Moves-trans}
use tork.Moves.Jobs.{dispatch-Moves}
use tork.Moves.Actions.{
  IsMover, IsStill, IsInner, IsStill-IsMover, if-IsMover, bind-IsMover, still_then,
}
use tork.Moves.Still.{time_now-IsStill, pure-IsStill, get_job-IsStill, update_task-IsStill}
use tork.Moves.Completed.{
  keep_state-IsInner, handle_job-IsMover, progress-IsStill, completed-IsMover,
}
use tork.Moves.Scheduled.{pending-IsMover}
use tork.Moves.Starts.{IsWaiting, start_job-Moves}

IsInner-IsMover : {A : Type 0} (m : M A) → IsInner m → IsMover m
IsInner-IsMover m inner = record { at = inner.at }

heartbeat-IsStill : (env : Env) (n : Node) → IsStill (Heartbeats.handle env n)
unfolding Heartbeats.handle create_node update_node get_node select_node
heartbeat-IsStill env n = record { at = λ w. ground arith; outside = λ w. ground arith }

-- What follows a handler, which failed or did not.
recovered-Moves :
    (js : List Job) (r : Result (Unit {0})) (v : World)
    (recover : Error → Result (Unit {0}) × World)
    → Moves js v.db.jobs
    → ((e : Error) → Moves v.db.jobs (recover e).1.db.jobs)
    → Moves js
        (elim r as (λ x. Result (Unit {0}) × World) [
          | Eval.Result.ok done ↦ (Eval.Result.ok tt, v)
          | Eval.Result.err e ↦ recover e
        ]).1.db.jobs
recovered-Moves js (Eval.Result.ok done) v recover moved next = moved
recovered-Moves js (Eval.Result.err e) v recover moved next =
    Moves-trans js v.db.jobs (recover e).1.db.jobs moved (next e)

module _ (env : Env) where
  log_part-IsStill : (p : TaskLogPart) → IsStill (Progress.handle_log_part env p)
  unfolding Progress.handle_log_part create_task_log_part
  log_part-IsStill p = record { at = λ w. ground arith; outside = λ w. ground arith }

  retry-IsStill : (j : Job) (t : Task) → IsStill (retry_task env j t)
  unfolding retry_task create_task
  retry-IsStill j t = record { at = λ w. ground arith; outside = λ w. ground arith }

  error-IsMover : (t : Task) → IsMover (Errors.handle env t)
  unfolding Errors.handle
  error-IsMover t = still_then (get_job t.job_id) _ (get_job-IsStill t.job_id) λ j.
      still_then (time_now env) _ (time_now-IsStill env) λ now.
        let t' = record t { info = record t.info { failed_at = some now } } in
        still_then (update_task t.id (λ u. pure (fail_row t' u))) _
          (update_task-IsStill t.id (λ u. pure (fail_row t' u)) λ u. pure-IsStill (fail_row t' u))
          λ done.
            if-IsMover (is_under_way j.state && has_attempts t'.retry) (retry_task env j t') _
              (IsStill-IsMover _ (retry-IsStill j t'))
              (handle_job-IsMover env
                (record j { state = JobState.failed; failed_at = t'.failed_at }) (ground arith))

  start_row-IsStill : (t u : Task) → IsStill (start_row env t u)
  unfolding start_row
  start_row-IsStill t u = record { at = λ w. ground arith; outside = λ w. ground arith }

  -- The task is sent back, for its job is not under way.
  send_back : Task → M (Unit {0})
  send_back t = do
    node ← get_node env t.node_id
    publish_task node.queue (record t { info = record t.info { state = TaskState.cancelled } })

  send_back-IsStill : (t : Task) → IsStill (send_back t)
  unfolding send_back get_node select_node
  send_back-IsStill t = record { at = λ w. ground arith; outside = λ w. ground arith }

  mark_running : Job → M (Unit {0})
  mark_running j =
      if is_scheduled j.state
      then Jobs.handle env state_change (record j { state = JobState.running })
      else pure tt

  mark_running-IsMover : (j : Job) → IsMover (mark_running j)
  unfolding mark_running
  mark_running-IsMover j =
      if-IsMover (is_scheduled j.state) _ (pure tt)
        (handle_job-IsMover env (record j { state = JobState.running }) (ground arith))
        (IsStill-IsMover _ (pure-IsStill tt))

  started-IsMover : (t : Task) → IsMover (Started.handle env t)
  unfolding Started.handle send_back mark_running
  started-IsMover t = still_then (get_job t.job_id) _ (get_job-IsStill t.job_id) λ j.
      if-IsMover (not (is_running j.state) && not (is_scheduled j.state)) (send_back t) _
        (IsStill-IsMover _ (send_back-IsStill t))
        (bind-IsMover (mark_running j) (λ done. update_task t.id (start_row env t))
          (mark_running-IsMover j)
          λ done. IsStill-IsMover _ (update_task-IsStill t.id _ (start_row-IsStill t)))

  progress-IsMover : (r : Reading) (t : Task) → IsMover (Progress.handle env r t)
  unfolding Progress.handle
  progress-IsMover r t =
      let p = clamp r in
      let report : Task → M Task = λ u. pure (record u { info = record u.info { progress = p } }) in
      still_then (update_task t.id report) _
        (update_task-IsStill t.id report λ u. record { at = λ w. refl; outside = λ w. refl })
        λ done. still_then (get_job t.job_id) _ (get_job-IsStill t.job_id) λ j.
          let write : Job → Job = λ u. record u { progress = overall p j } in
          bind-IsMover (update_job t.job_id (λ u. pure (write u)))
            (λ done. Jobs.handle env progress (record j { progress = overall p j }))
            (IsInner-IsMover _ (keep_state-IsInner t.job_id write λ u. refl))
            λ done. IsStill-IsMover _ (progress-IsStill env _)

  task_handler-IsMover :
      (handler : Task → M (Unit {0})) (t : Task)
      → ((u : Task) → IsMover (handler u))
      → IsMover (task_handler env handler t)
  unfolding task_handler
  task_handler-IsMover handler t moves = record {
    at = λ w.
        let v = (handler t w).1 in
        recovered-Moves w.db.jobs (handler t w).0 v _ ((moves t).at w) λ e.
          (error-IsMover (record t {
            info = record t.info {
              failed_at = some (env.now v.readings);
              state = TaskState.failed;
              error = env.message e;
            };
          })).at
            (record v { readings = v.readings + 1 });
  }

  -- A message about a job, of which the handler moves the rows.
  job_handler-Moves :
      (j : Job) (w : World)
      → Moves w.db.jobs (Jobs.handle env state_change j w).1.db.jobs
      → Moves w.db.jobs (job_handler env (Jobs.handle env state_change) j w).1.db.jobs
  unfolding job_handler
  job_handler-Moves j w moved =
      let v = (Jobs.handle env state_change j w).1 in
      recovered-Moves w.db.jobs (Jobs.handle env state_change j w).0 v _ moved λ e.
        (handle_job-IsMover env
            (record j { failed_at = some (env.now v.readings); state = JobState.failed })
            (ground arith)).at
          (record v { readings = v.readings + 1 })

  on_task-IsMover : (fuel : ℕ) (h : Option Handler) (t : Task) → IsMover (on_task env fuel h t)
  unfolding on_task
  on_task-IsMover fuel (some on_pending) t = task_handler-IsMover _ t (pending-IsMover env)
  on_task-IsMover fuel (some on_completed) t = task_handler-IsMover _ t (completed-IsMover env fuel)
  on_task-IsMover fuel (some on_started) t = task_handler-IsMover _ t started-IsMover
  on_task-IsMover fuel (some on_error) t = task_handler-IsMover _ t error-IsMover
  on_task-IsMover fuel other t = IsStill-IsMover _ (pure-IsStill tt)

  -- A message to start a job is about a job whose row is PENDING, if it is there.
  abbrev StartsWaiting : JobState → Job → World → Type 0
  StartsWaiting JobState.pending j w = IsWaiting j.id w.db.jobs
  StartsWaiting s j w = Unit

  dispatch_any-Moves :
      (s : JobState) (j : Job) (w : World)
      → StartsWaiting s j w
      → Moves w.db.jobs (dispatch env s j w).1.db.jobs
  unfolding dispatch
  dispatch_any-Moves JobState.pending j w waits = start_job-Moves env j w waits
  dispatch_any-Moves s j w other = dispatch-Moves env s j w (ground arith)

  abbrev pub IsFresh : Message → World → Type 0
  IsFresh (job_message j) w = StartsWaiting j.state j w
  IsFresh m w = Unit

  pub receive-Moves :
      (fuel : ℕ) (m : Message) (w : World)
      → IsFresh m w
      → Moves w.db.jobs (receive env fuel m w).1.db.jobs
  unfolding receive Jobs.handle
  receive-Moves fuel (task_message qname t) w fresh =
      (on_task-IsMover fuel (handler_of qname) t).at w
  receive-Moves fuel (job_message j) w fresh =
      job_handler-Moves j w (dispatch_any-Moves j.state j w fresh)
  receive-Moves fuel (heartbeat_message n) w fresh =
      (IsStill-IsMover _ (heartbeat-IsStill env n)).at w
  receive-Moves fuel (log_message p) w fresh = (IsStill-IsMover _ (log_part-IsStill p)).at w
  receive-Moves fuel (progress_message t) w fresh =
      (task_handler-IsMover _ t (progress-IsMover (hundredths t.progress))).at w
  receive-Moves fuel (event_message topic j) w fresh = Moves-refl w.db.jobs
  receive-Moves fuel (schedule_message topic s) w fresh = Moves-refl w.db.jobs
