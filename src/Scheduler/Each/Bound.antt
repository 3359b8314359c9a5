-- ===== src/Scheduler/Each/Bound.antt =====
-- How many tasks an each sends to the broker when it is scheduled.
use tork.Prelude.{
  ℕ, suc, ◌+◌, ◌-◌, ◌≤◌, ◌<◌, ◌≡◌, arith, if◌then◌else◌, some, none, Option, String, List, [], ◌∷◌,
  ◌++◌, str_eq,
}
use tork.User.{Time}
use tork.Task.{EachInfo, TaskNode, Task, TaskState}
use tork.Job.{Job}
use tork.Eval.{Values, evaluate_task}
use tork.Broker.Queues.{queue_pending, queue_error}
use tork.Exec.{
  M, World, Env, Message, task_message, job_message, event_message, schedule_message,
  heartbeat_message, log_message, progress_message,
}
use tork.Datastore.{create_task}
use tork.Scheduler.Each.{each_round, each_instance, item_scope, each_loop, fires}

-- The tasks among the messages that are to be scheduled.
pub pending_count : List Message → ℕ
pending_count [] = 0
pending_count (task_message q t ∷ ms) = (if str_eq q queue_pending then 1 else 0) + pending_count ms
pending_count (job_message j ∷ ms) = pending_count ms
pending_count (event_message s j ∷ ms) = pending_count ms
pending_count (schedule_message s j ∷ ms) = pending_count ms
pending_count (heartbeat_message n ∷ ms) = pending_count ms
pending_count (log_message p ∷ ms) = pending_count ms
pending_count (progress_message t ∷ ms) = pending_count ms

pending_count-append :
    (ms ns : List Message) → pending_count (ms ++ ns) ≡ pending_count ms + pending_count ns
unfolding pending_count
pending_count-append [] ns = omega arith
pending_count-append (task_message q t ∷ ms) ns = omega (arith, pending_count-append ms ns)
pending_count-append (job_message j ∷ ms) ns = pending_count-append ms ns
pending_count-append (event_message s j ∷ ms) ns = pending_count-append ms ns
pending_count-append (schedule_message s j ∷ ms) ns = pending_count-append ms ns
pending_count-append (heartbeat_message n ∷ ms) ns = pending_count-append ms ns
pending_count-append (log_message p ∷ ms) ns = pending_count-append ms ns
pending_count-append (progress_message t ∷ ms) ns = pending_count-append ms ns

pending_count_one :
    (ms : List Message) (q : String) (t : Task)
    → pending_count (ms ++ task_message q t ∷ [])
      ≡ pending_count ms + (if str_eq q queue_pending then 1 else 0)
unfolding pending_count
pending_count_one ms q t = omega (arith, pending_count-append ms (task_message q t ∷ []))

each_round-pending_le :
    (env : Env) (t : Task) (e : EachInfo) (ix : ℕ) (r : Task × Option String) (rest : M (Unit {0}))
    (w : World)
    → 0 < e.concurrency
    → ((v : World)
        → pending_count (rest v).1.sent ≤ pending_count v.sent + (e.concurrency - suc ix))
    → pending_count (each_round env t e ix r rest w).1.sent
      ≤ pending_count w.sent + (e.concurrency - ix)
unfolding each_round fires create_task
each_round-pending_le env t e ix (et, some x) rest w h k = omega (
  arith,
  pending_count_one w.sent queue_error
      (record t { info = record t.info { error = x; state = TaskState.failed } }),
)
each_round-pending_le env t e ix (et, none) rest w h k =
    let made = (create_task env et w).1 in
    let sent = record made { sent = made.sent ++ task_message queue_pending et ∷ [] } in
    ground (arith, k made, k sent, pending_count_one w.sent queue_pending et)

-- From the item at an index on, the scheduling of an each with a bound on concurrency sends at
-- most as many tasks as the bound is above the index, however the tasks evaluate.
pub each_loop-pending_le :
    (env : Env) (t : Task) (e : EachInfo) (n : TaskNode) (j : Job) (now : Time) (ix : ℕ)
    (vs : Values) (w : World)
    → 0 < e.concurrency
    → pending_count (each_loop env t e n j now ix vs w).1.sent
      ≤ pending_count w.sent + (e.concurrency - ix)
unfolding each_loop
each_loop-pending_le env t e n j now ix Values.no_values w h = omega arith
each_loop-pending_le env t e n j now ix (Values.one_more v vs) w h =
    each_round-pending_le env t e ix
      (evaluate_task env.evaluator (item_scope env e j ix v)
        (each_instance t e n j now (env.uuid w.drawn) ix))
      (each_loop env t e n j now (suc ix) vs) (record w { drawn = w.drawn + 1 }) h
      (λ u. each_loop-pending_le env t e n j now (suc ix) vs u h)
