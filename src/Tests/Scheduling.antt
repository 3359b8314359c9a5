-- ===== src/Tests/Scheduling.antt =====
-- Tasks that are scheduled.
use tork.Prelude.{◌≡◌, ◌≢◌, ◌≤◌, ◌+◌, refl, some, [], ◌∷◌, arith}
use tork.Task.{TaskState, to_node, Task}
use tork.Job.{JobDefaults}
use tork.Eval
use tork.Eval.{Value, Values, evaluate_expr}
use tork.Exec.{World, ok, task_message}
use tork.Scheduler.Common.{as_map}
use tork.Datastore.{find_row, task_key, job_key}
use tork.Scheduler.Regular.{schedule_regular_task}
use tork.Scheduler.Regular.Scheduled.{schedule_regular_task-ok, sent_task, scheduled_row}
use tork.Scheduler.Each.{schedule_each_task, each_loop}
use tork.Scheduler.Each.Bound.{each_loop-pending_le, pending_count}
use tork.Scheduler.Each.Empty.{schedule_each_task-empty, empty_row}
use tork.Tests.Samples.{done_row, each_row, three_items, two_task_job, world_of, env, evaluator}

abbrev w : World
w = world_of (done_row ∷ []) (two_task_job ∷ [])

row_found : find_row task_key "t1" w.db.tasks ≡ some done_row
unfolding find_row
row_found = refl

job_found : find_row job_key "j1" w.db.jobs ≡ some two_task_job
unfolding find_row
job_found = refl

abbrev sent : Task
sent = sent_task env w two_task_job done_row

schedule_regular_task-ok_example :
    ((schedule_regular_task env done_row w).0 ≡ ok tt)
    × ((schedule_regular_task env done_row w).1.sent ≡ task_message sent.queue sent ∷ [])
    × (sent.queue ≢ "")
    × (sent.state ≡ TaskState.scheduled)
    × (find_row task_key "t1" (schedule_regular_task env done_row w).1.db.tasks
        ≡ some (scheduled_row sent done_row))
schedule_regular_task-ok_example =
    schedule_regular_task-ok env done_row done_row two_task_job w row_found job_found

abbrev defaults : JobDefaults
defaults = record {
  retry = some (record { limit = 3; attempts = 0 });
  limits = some (record { cpus = "1"; memory = "" });
  timeout = "5s";
  queue = "";
  priority = 1;
}

abbrev four_items : Values
four_items = Values.one_more (Value.opaque 1) (
    Values.one_more (Value.opaque 2)
      (Values.one_more (Value.opaque 3) (Values.one_more (Value.opaque 4) Values.no_values)))

each_loop-pending_le_example :
    pending_count
      (each_loop env
        (each_row three_items)
        three_items
        (to_node done_row)
        two_task_job
        7
        0
        four_items
        w).1.sent
    ≤ pending_count w.sent + 2
each_loop-pending_le_example =
    each_loop-pending_le env (each_row three_items) three_items (to_node done_row) two_task_job 7 0
      four_items w (omega arith)

abbrev w_each : World
w_each = world_of (each_row three_items ∷ []) (two_task_job ∷ [])

each_found : find_row task_key "p1" w_each.db.tasks ≡ some (each_row three_items)
unfolding find_row
each_found = refl

each_job_found : find_row job_key "j1" w_each.db.jobs ≡ some two_task_job
unfolding find_row
each_job_found = refl

no_items :
    evaluate_expr evaluator "{{list}}" (as_map two_task_job.context)
    ≡ Eval.Result.ok (Value.slice_of Values.no_values)
unfolding evaluate_expr
no_items = refl

schedule_each_task-empty_example :
    ((schedule_each_task env (each_row three_items) three_items (to_node done_row) w_each).0
      ≡ ok tt)
    × ((schedule_each_task env (each_row three_items) three_items (to_node done_row) w_each).1.sent
        ≡ [])
    × (find_row task_key "p1"
          (schedule_each_task env
            (each_row three_items)
            three_items
            (to_node done_row)
            w_each).1.db.tasks
        ≡ some (empty_row env w_each (each_row three_items) three_items (to_node done_row)))
schedule_each_task-empty_example =
    schedule_each_task-empty env (each_row three_items) (each_row three_items) three_items
      three_items (to_node done_row) (to_node done_row) two_task_job w_each each_found refl
      each_job_found no_items
