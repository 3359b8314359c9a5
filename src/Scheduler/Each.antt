-- ===== src/Scheduler/Each.antt =====
-- `scheduleEachTask` of internal/coordinator/scheduler/scheduler.go.
pub mod Bound
pub mod Empty
use tork.Scheduler.Common.{as_map, report_failure}
use tork.Prelude.{
  ℕ, suc, String, Option, Bool, ◌||◌, none, some, insert, ltb, ◌==◌, str_eq, if◌then◌else◌,
}
use tork.User.{Time}
use tork.Task.{TaskState, EachInfo, TaskNode, each_task, no_each, Task, of_node}
use tork.Task.Clone
use tork.Job.{Job}
use tork.Eval
use tork.Eval.{Value, Values, Scope, evaluate_expr, evaluate_task}
use tork.Broker.Queues.{queue_pending}
use tork.Exec.{Env, M, panic, pure, fail, ◌>>=◌, ◌>>◌, time_now, new_uuid, publish_task}
use tork.Datastore.{get_job, update_task, create_task}

-- `t.Each.Concurrency == 0 || ix < t.Each.Concurrency`
unfoldable pub fires : ℕ → ℕ → Bool
fires concurrency ix = concurrency == 0 || ltb ix concurrency

-- The task for one item of the list, before its evaluation.
unfoldable pub each_instance : Task → EachInfo → TaskNode → Job → Time → String → ℕ → Task
unfolding fires Clone.clone
each_instance t e n j now id ix =
    let et = Clone.clone (of_node n) in
    record et {
      info = record et.info {
        id = id;
        job_id = j.id;
        state = if fires e.concurrency ix then TaskState.pending else TaskState.created;
        position = t.position;
        created_at = some now;
        parent_id = t.id;
      };
    }

unfoldable pub count_values : Values → ℕ
count_values Values.no_values = 0
count_values (Values.one_more v vs) = suc (count_values vs)

unfoldable pub mark_each : Time → ℕ → Task → M Task
mark_each now size u = elim u.each [
  | no_each ↦ fail panic
  | each_task e n ↦ pure (record u {
    info = record u.info {
      state = TaskState.running;
      scheduled_at = some now;
      started_at = some now;
    };
    each = each_task (record e { size = size; index = e.concurrency }) n;
  })
]

-- One round of the loop, after the evaluation of its task.
unfoldable pub each_round :
    Env → Task → EachInfo → ℕ → Task × Option String → M (Unit {0}) → M (Unit {0})
unfolding fires
each_round env t e ix (et, some x) rest = report_failure t x
each_round env t e ix (et, none) rest = do
  create_task env et
  (if fires e.concurrency ix then publish_task queue_pending et else pure tt)
  rest

module _ (env : Env) where
  unfoldable pub item_scope : EachInfo → Job → ℕ → Value → Scope
  item_scope e j ix v =
      insert (if str_eq e.var "" then "item" else e.var) (Value.item (env.decimal ix) v)
        (as_map j.context)

  unfoldable pub each_loop : Task → EachInfo → TaskNode → Job → Time → ℕ → Values → M (Unit {0})
  each_loop t e n j now ix Values.no_values = pure tt
  each_loop t e n j now ix (Values.one_more v vs) =
      let rest = each_loop t e n j now (suc ix) vs in
      do
        id ← new_uuid env
        each_round env t e ix
            (evaluate_task env.evaluator (item_scope e j ix v) (each_instance t e n j now id ix))
            rest

  unfoldable pub each_list : Task → EachInfo → TaskNode → Job → Time → Values → M (Unit {0})
  unfolding each_loop mark_each count_values update_task
  each_list t e n j now vs = do
    update_task t.id (mark_each now (count_values vs))
    each_loop t e n j now 0 vs

  unfoldable pub schedule_each_task : Task → EachInfo → TaskNode → M (Unit {0})
  unfolding each_list evaluate_expr get_job
  schedule_each_task t e n = do
    now ← time_now env
    j ← get_job t.job_id
    elim (evaluate_expr env.evaluator e.list (as_map j.context)) [
      | Eval.Result.err x ↦ report_failure t x
      | Eval.Result.ok (Value.slice_of vs) ↦ each_list t e n j now vs
      | Eval.Result.ok _ ↦ report_failure t "each.list does not evaluate to a list"
    ]
