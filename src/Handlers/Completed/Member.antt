-- ===== src/Handlers/Completed/Member.antt =====
-- The completion of a task of a parallel or each task.
use tork.Prelude.{
  ℕ, refl, sym, ap, ◌≤◌, ◌<◌, ◌+◌, ◌≡◌, ◌≢◌, ◌∙◌, arith, true, false, if◌then◌else◌, leb, some, [],
  ◌∷◌, ◌++◌, length, eq_iff,
}
use tork.Task.{
  EachInfo, TaskNode, TaskNodes, Task, TaskState, parallel_task, each_task, no_parallel, node_list,
}
use tork.Broker.Queues.{queue_pending}
use tork.Exec.{M, World, Env, ok, with_tx, task_message}
use tork.Datastore.{
  next_created, find_row, write_row, task_key, update_task, update_task_returning, get_task,
  get_next_task_outside, update_task_outside,
}
use tork.Datastore.Rows.{key-find_row, find_row-write_row_self, find_row-write_row_ne}
use tork.Handlers.States.{is_completable}
use tork.Handlers.Completed.{
  fire_next, complete_member, count_parallel, count_each, record_result, fires_next, counted,
  all_complete, complete_parallel_task, complete_each_task, complete_parent, complete_sub_task,
}

-- No further task of an each is to be sent: this was the last one, the each has no bound on
-- concurrency, or all its tasks were sent.
pub data IsIdle (e : EachInfo) : Type 0 where
  last_one : e.size ≤ e.completions + 1 → IsIdle e
  unbounded : e.concurrency ≡ 0 → IsIdle e
  all_sent : e.size ≤ e.index → IsIdle e

IsIdle-fires_next : (e : EachInfo) → IsIdle e → fires_next e ≡ false
unfolding fires_next all_complete
IsIdle-fires_next e (last_one h) = ground (arith, h)
IsIdle-fires_next e (unbounded h) = ground (arith, h)
IsIdle-fires_next e (all_sent h) = ground (arith, h)

-- The counters of an each with one more task complete.
abbrev pub one_more : EachInfo → EachInfo
one_more e = record e { completions = e.completions + 1; index = e.index + 1 }

module _ (t u parent : Task) (w : World) (task_found : find_row task_key t.id w.db.tasks ≡ some u)
    (completable : is_completable u.state ≡ true) (apart : t.id ≢ t.parent_id)
    (parent_found : find_row task_key t.parent_id w.db.tasks ≡ some parent)
    (no_result : t.result ≡ "") where
  abbrev pub member_row : Task
  member_row = record u {
    info = record u.info { state = t.state; completed_at = t.completed_at; result = t.result };
  }

  -- The tables after the transaction, with a new row for the parent.
  abbrev pub after_member : Task → World
  after_member new = record w {
    db = record w.db {
      tasks = write_row task_key t.parent_id new (write_row task_key t.id member_row w.db.tasks);
    };
    committed = w.db;
  }

  parent_kept :
      find_row task_key t.parent_id (write_row task_key t.id member_row w.db.tasks) ≡ some parent
  parent_kept =
      find_row-write_row_ne task_key t.id t.parent_id member_row w.db.tasks
        (key-find_row task_key t.id w.db.tasks u task_found) apart
      ∙ parent_found

  -- The transaction for a task of a parallel task.
  pub complete_member-parallel :
      (tasks : TaskNodes) (n : ℕ)
      → parent.parallel ≡ parallel_task tasks n
      → complete_member count_parallel t w ≡ (
        ok (leb (length (node_list tasks)) (n + 1)),
        after_member (record parent { parallel = parallel_task tasks (n + 1) }),
      )
  unfolding complete_member with_tx update_task update_task_returning count_parallel record_result
  complete_member-parallel tasks n p = ground (
    arith,
    key-find_row task_key t.id w.db.tasks u task_found,
    key-find_row task_key t.parent_id w.db.tasks parent parent_found,
    parent_kept,
    eq_iff t.result "",
  )

  -- The transaction for a task of an each that sends no further one.
  pub complete_member-each :
      (e : EachInfo) (n : TaskNode)
      → parent.each ≡ each_task e n
      → fires_next e ≡ false
      → complete_member count_each t w ≡ (
        ok (leb e.size (e.completions + 1)),
        after_member (record parent { each = each_task (one_more e) n }),
      )
  unfolding complete_member with_tx update_task update_task_returning count_each record_result
      all_complete counted
  complete_member-each e n p h = ground (
    arith,
    key-find_row task_key t.id w.db.tasks u task_found,
    key-find_row task_key t.parent_id w.db.tasks parent parent_found,
    parent_kept,
    eq_iff t.result "",
  )

  -- When a task of an each completes, with no result and from a row that may be completed, it is not the
  -- last one, and fewer tasks were sent than the each has and its bound is positive, then the next
  -- CREATED task of the each becomes PENDING in its row and is sent as PENDING, and no other message is
  -- sent. The completed task is not reported as the last one, its row is written, and both counters of
  -- the each go up by one. The next task is neither the completed one nor the each.
  pub complete_member-each_fires :
      (e : EachInfo) (n : TaskNode) (next : Task)
      → parent.each ≡ each_task e n
      → e.completions + 1 < e.size
      → 0 < e.concurrency
      → e.index < e.size
      → next_created t.parent_id w.db.tasks ≡ some next
      → find_row task_key next.id w.db.tasks ≡ some next
      → t.id ≢ next.id
      → t.parent_id ≢ next.id
      → let v = (complete_member count_each t w).1 in
        let next' = record next { info = record next.info { state = TaskState.pending } } in
        ((complete_member count_each t w).0 ≡ ok false)
        × (v.sent ≡ w.sent ++ task_message queue_pending next' ∷ [])
        × (v.db.tasks
            ≡ write_row task_key t.parent_id
                (record parent { each = each_task (one_more e) n })
                (write_row task_key next.id next' (write_row task_key t.id member_row w.db.tasks)))
        × (find_row task_key next.id v.db.tasks ≡ some next')
        × (find_row task_key t.id v.db.tasks ≡ some member_row)
        × (find_row task_key t.parent_id v.db.tasks
            ≡ some (record parent { each = each_task (one_more e) n }))
  unfolding complete_member with_tx update_task update_task_returning count_each record_result
      fire_next get_next_task_outside update_task_outside fires_next all_complete counted
  complete_member-each_fires e n next p more bounded unsent some_next next_found apart_t apart_p =
      let key = key-find_row task_key t.id w.db.tasks u task_found in
      let parent_key = key-find_row task_key t.parent_id w.db.tasks parent parent_found in
      let next' : Task = record next { info = record next.info { state = TaskState.pending } } in
      let new : Task = record parent { each = each_task (one_more e) n } in
      let rows = write_row task_key t.id member_row w.db.tasks in
      let fired = write_row task_key next.id next' rows in
      let next_kept : find_row task_key next.id rows ≡ some next =
        find_row-write_row_ne task_key t.id next.id member_row w.db.tasks key apart_t
        ∙ next_found in
      let same : (complete_member count_each t w).1.db.tasks
          ≡ write_row task_key t.parent_id new fired =
        ground (arith, key, parent_key, parent_kept, eq_iff t.result "") in
      (
        ground (arith, key, parent_key, parent_kept, eq_iff t.result ""),
        ground (arith, key, parent_key, parent_kept, eq_iff t.result ""),
        same,
        ap (find_row task_key next.id) same
            ∙ find_row-write_row_ne task_key t.parent_id next.id new fired parent_key apart_p
            ∙ find_row-write_row_self task_key next.id next' rows next refl next_kept,
        ap (find_row task_key t.id) same
            ∙ find_row-write_row_ne task_key t.parent_id t.id new fired parent_key
                (λ e. apart (sym e))
            ∙ find_row-write_row_ne task_key next.id t.id next' rows refl (λ e. apart_t (sym e))
            ∙ find_row-write_row_self task_key t.id member_row w.db.tasks u key task_found,
        ap (find_row task_key t.parent_id) same
            ∙ find_row-write_row_self task_key t.parent_id new fired parent parent_key (
                find_row-write_row_ne task_key next.id t.parent_id next' rows refl
                  (λ e. apart_p (sym e))
                ∙ parent_kept),
      )

  -- The parent as it is read after the transaction and handed on.
  abbrev pub done_parent : Env → Task → Task
  done_parent env new = record new {
    info = record new.info {
      state = TaskState.completed;
      completed_at = some (env.now w.readings);
    };
  }

  parent_read :
      (new : Task)
      → new.id ≡ t.parent_id
      → find_row task_key t.parent_id (after_member new).db.tasks ≡ some new
  parent_read new same =
      find_row-write_row_self task_key t.parent_id new
        (write_row task_key t.id member_row w.db.tasks) parent same parent_kept

  -- When a task of a parallel task completes, with no result and from a row that may be completed,
  -- its row and the counter of the parallel task are written. The last of the tasks, and no other,
  -- completes the parallel task itself.
  pub complete_sub_task-parallel :
      (env : Env) (again : Task → M (Unit {0})) (tasks : TaskNodes) (n : ℕ)
      → parent.parallel ≡ parallel_task tasks n
      → let new = record parent { parallel = parallel_task tasks (n + 1) } in
        complete_sub_task env again t w ≡ (
          if leb (length (node_list tasks)) (n + 1)
          then again (done_parent env new) (record (after_member new) { readings = w.readings + 1 })
          else (ok tt, after_member new))
  unfolding complete_sub_task complete_parallel_task complete_parent get_task
  complete_sub_task-parallel env again tasks n p = ground (
    arith,
    complete_member-parallel tasks n p,
    parent_read (record parent { parallel = parallel_task tasks (n + 1) })
        (key-find_row task_key t.parent_id w.db.tasks parent parent_found),
  )

  -- When a task of an each completes, with no result and from a row that may be completed, and no
  -- further task is to be sent, its row is written and the two counters of the each go up by one. If
  -- the completions are then as many as the size of the each, and only then, the each itself is
  -- completed.
  pub complete_sub_task-each :
      (env : Env) (again : Task → M (Unit {0})) (e : EachInfo) (n : TaskNode)
      → parent.parallel ≡ no_parallel
      → parent.each ≡ each_task e n
      → IsIdle e
      → let new = record parent { each = each_task (one_more e) n } in
        complete_sub_task env again t w ≡ (
          if leb e.size (e.completions + 1)
          then again (done_parent env new) (record (after_member new) { readings = w.readings + 1 })
          else (ok tt, after_member new))
  unfolding complete_sub_task complete_each_task complete_parent get_task
  complete_sub_task-each env again e n alone p idle = ground (
    arith,
    complete_member-each e n p (IsIdle-fires_next e idle),
    parent_read (record parent { each = each_task (one_more e) n })
        (key-find_row task_key t.parent_id w.db.tasks parent parent_found),
  )
