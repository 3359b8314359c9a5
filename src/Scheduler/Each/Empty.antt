-- ===== src/Scheduler/Each/Empty.antt =====
-- An each over an empty list.
use tork.Prelude.{◌≡◌, arith, some}
use tork.Task.{EachInfo, TaskNode, Task, TaskState, each_task}
use tork.Job.{Job}
use tork.Eval
use tork.Eval.{Values, Value, evaluate_expr}
use tork.Exec.{World, Env, ok}
use tork.Datastore.{find_row, task_key, job_key, update_task, get_job}
use tork.Datastore.Rows.{key-find_row, find_row-write_row_self}
use tork.Scheduler.Common.{as_map}
use tork.Scheduler.Each.{schedule_each_task, each_loop, mark_each}

-- The row of an each whose list is empty.
abbrev pub empty_row : Env → World → Task → EachInfo → TaskNode → Task
empty_row env w u f m = record u {
  info = record u.info {
    state = TaskState.running;
    scheduled_at = some (env.now w.readings);
    started_at = some (env.now w.readings);
  };
  each = each_task (record f { size = 0; index = f.concurrency }) m;
}

-- An each whose row and job are found and whose list evaluates to an empty one is left RUNNING
-- with a size of 0, and no message is sent.
pub schedule_each_task-empty :
    (env : Env) (t u : Task) (e f : EachInfo) (n m : TaskNode) (j : Job) (w : World)
    → find_row task_key t.id w.db.tasks ≡ some u
    → u.each ≡ each_task f m
    → find_row job_key t.job_id w.db.jobs ≡ some j
    → evaluate_expr env.evaluator e.list (as_map j.context)
      ≡ Eval.Result.ok (Value.slice_of Values.no_values)
    → ((schedule_each_task env t e n w).0 ≡ ok tt)
      × ((schedule_each_task env t e n w).1.sent ≡ w.sent)
      × (find_row task_key t.id (schedule_each_task env t e n w).1.db.tasks
          ≡ some (empty_row env w u f m))
unfolding schedule_each_task each_loop update_task get_job mark_each
schedule_each_task-empty env t u e f n m j w task_found has_each job_found empty =
    let row = empty_row env w u f m in
    let same = key-find_row task_key t.id w.db.tasks u task_found in
    ground (arith, same, find_row-write_row_self task_key t.id row w.db.tasks u same task_found)
