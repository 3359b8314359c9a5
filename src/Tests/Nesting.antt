-- ===== src/Tests/Nesting.antt =====
-- The completion of tasks that stand inside others.
use tork.Prelude.{
  String, ℕ, str_eq, if◌then◌else◌, inl, inr, ◌≢◌, eq_iff, ◌≡◌, ◌+◌, refl, some, none, [], ◌∷◌,
  ◌++◌, arith, false,
}
use tork.Task.{Task, TaskState}
use tork.Exec.{World, M, ok, task_message}
use tork.Broker.Queues.{queue_pending}
use tork.Datastore.{find_row, task_key, next_created, write_row}
use tork.Handlers.Completed.{
  complete_task, complete_top_level_task, complete_sub_task, complete_member, count_each,
}
use tork.Handlers.Completed.Member.{
  complete_sub_task-parallel, complete_sub_task-each, complete_member-each_fires, after_member,
}
use tork.Handlers.Completed.Fuel.{one_step, Follows, complete_task-recursion}
use tork.Handlers.Completed.Rules.{IsAbove, IsRanked}
use tork.Handlers.Completed.Counter.{first-fired, first, fired, IsScheduled}
use tork.Task.{EachInfo, parallel_task, to_node}
use tork.Handlers.Completed.Member.{IsIdle, unbounded}
use tork.Tests.Samples.{
  done_row, done_member, member_row, parallel_row, each_row, two_nodes, three_items, all_at_once,
  waiting_row, two_task_job, world_of, env,
}

abbrev w_parallel : World
w_parallel = world_of (member_row ∷ parallel_row ∷ []) (two_task_job ∷ [])

member_found : find_row task_key "m1" w_parallel.db.tasks ≡ some member_row
unfolding find_row
member_found = refl

parallel_found : find_row task_key "p1" w_parallel.db.tasks ≡ some parallel_row
unfolding find_row
parallel_found = refl

names_apart : done_member.id ≢ done_member.parent_id
names_apart = ground (arith, eq_iff "m1" "p1")

-- The second of two tasks completes the parallel task.
complete_sub_task-parallel_example :
    complete_sub_task env (complete_top_level_task env) done_member w_parallel
    ≡ complete_top_level_task env
        (record parallel_row {
          info = record parallel_row.info { state = TaskState.completed; completed_at = some 100 };
          parallel = parallel_task two_nodes 2;
        })
        (record (after_member done_member member_row parallel_row w_parallel member_found refl
          names_apart parallel_found refl
          (record parallel_row { parallel = parallel_task two_nodes 2 })) { readings = 1 })
complete_sub_task-parallel_example =
    complete_sub_task-parallel done_member member_row parallel_row w_parallel member_found refl
      names_apart parallel_found refl env (complete_top_level_task env) two_nodes 1 refl

abbrev w_each : World
w_each = world_of (member_row ∷ each_row all_at_once ∷ []) (two_task_job ∷ [])

each_member_found : find_row task_key "m1" w_each.db.tasks ≡ some member_row
unfolding find_row
each_member_found = refl

each_found : find_row task_key "p1" w_each.db.tasks ≡ some (each_row all_at_once)
unfolding find_row
each_found = refl

each-IsIdle : IsIdle all_at_once
each-IsIdle = unbounded refl

abbrev all_done : EachInfo
all_done = record all_at_once { completions = 3; index = 1 }

-- The last of three tasks completes the each.
complete_sub_task-each_example :
    complete_sub_task env (complete_top_level_task env) done_member w_each
    ≡ complete_top_level_task env
        (record (each_row all_done) {
          info = record (each_row all_done).info {
            state = TaskState.completed;
            completed_at = some 100;
          };
        })
        (record (after_member done_member member_row
          (each_row all_at_once)
          w_each
          each_member_found
          refl
          names_apart
          each_found
          refl
          (each_row all_done)) { readings = 1 })
complete_sub_task-each_example =
    complete_sub_task-each done_member member_row (each_row all_at_once) w_each each_member_found
      refl names_apart each_found refl env (complete_top_level_task env) all_at_once
      (to_node done_row) refl refl each-IsIdle

abbrev w_firing : World
w_firing = world_of (member_row ∷ each_row three_items ∷ waiting_row ∷ []) (two_task_job ∷ [])

firing_member_found : find_row task_key "m1" w_firing.db.tasks ≡ some member_row
unfolding find_row
firing_member_found = refl

firing_found : find_row task_key "p1" w_firing.db.tasks ≡ some (each_row three_items)
unfolding find_row
firing_found = refl

waiting_found : find_row task_key "m3" w_firing.db.tasks ≡ some waiting_row
unfolding find_row
waiting_found = refl

waiting_next : next_created "p1" w_firing.db.tasks ≡ some waiting_row
unfolding next_created
waiting_next = refl

-- The next task goes out, and the third of the counters is that of the tasks sent.
abbrev fired_row : Task
fired_row = each_row (record three_items { completions = 1; index = 3 })

abbrev pending_row : Task
pending_row = record waiting_row { info = record waiting_row.info { state = TaskState.pending } }

abbrev fires_member : Task
fires_member = record member_row {
  info = record member_row.info { state = TaskState.completed; completed_at = none; result = "" };
}

member_apart : done_member.id ≢ waiting_row.id
member_apart same = ground (arith, eq_iff "m1" "m3", same)

parent_apart : done_member.parent_id ≢ waiting_row.id
parent_apart same = ground (arith, eq_iff "p1" "m3", same)

complete_member-each_fires_example :
    let v = (complete_member count_each done_member w_firing).1 in
    ((complete_member count_each done_member w_firing).0 ≡ ok false)
    × (v.sent ≡ w_firing.sent ++ task_message queue_pending pending_row ∷ [])
    × (v.db.tasks
        ≡ write_row task_key "p1" fired_row (
            write_row task_key "m3" pending_row
              (write_row task_key "m1" fires_member w_firing.db.tasks)))
    × (find_row task_key "m3" v.db.tasks ≡ some pending_row)
    × (find_row task_key "m1" v.db.tasks ≡ some fires_member)
    × (find_row task_key "p1" v.db.tasks ≡ some fired_row)
complete_member-each_fires_example =
    complete_member-each_fires done_member member_row (each_row three_items) w_firing
      firing_member_found refl names_apart firing_found refl three_items (to_node done_row)
      waiting_row refl (omega arith) (omega arith) (omega arith) waiting_next waiting_found
      member_apart parent_apart

three_items-IsScheduled : IsScheduled three_items
three_items-IsScheduled = record { bounded = omega arith; none_done = refl; index_eq = refl }

first-fired_example : first three_items + fired 1 three_items ≡ 3
first-fired_example = first-fired 1 three_items three_items-IsScheduled

-- The parallel task comes before its members.
abbrev depth : String → ℕ
depth id = if str_eq id "p1" then 0 else 1

member-IsAbove : IsAbove depth member_row
member-IsAbove = inr (omega arith)

done-IsAbove : IsAbove depth done_member
done-IsAbove = inr (omega arith)

w_parallel-IsRanked : IsRanked depth w_parallel
w_parallel-IsRanked = record {
  now = (member-IsAbove, (inl refl, tt));
  before = (member-IsAbove, (inl refl, tt));
}

complete_task-recursion_example :
    (complete_task env 2 done_member w_parallel
      ≡ one_step depth env (complete_task env 2) done_member w_parallel)
    × ((g : Task → M (Unit {0}))
        → Follows depth env g
        → g done_member w_parallel ≡ complete_task env 2 done_member w_parallel)
complete_task-recursion_example =
    complete_task-recursion depth env 2 done_member done-IsAbove (omega arith) w_parallel
      w_parallel-IsRanked
