-- ===== src/Handlers/Completed/Fuel.antt =====
-- How much fuel the completion of a task needs.
use mathlib.Core.Path.{subst}
use tork.Prelude.{
  not, ◌&&◌, ℕ, suc, zero, ◌≡◌, ◌<◌, refl, ◌∙◌, Bool, true, false, String, arith, sym, str_eq,
  eq_iff, if◌then◌else◌,
}
use tork.Handlers.States.{is_completable}
use tork.Broker.Queues.{queue_pending}
use tork.Task.{
  EachInfo, TaskNode, TaskNodes, EachTask, ParallelTask, TaskState, Task, parallel_task,
  no_parallel, each_task, no_each,
}
use tork.Exec.{fail, panic, ensure, cannot_complete_task, M, World, Env, pure, ◌>>=◌}
use tork.Datastore.{
  update_job, get_task, get_next_task_outside, update_task_outside, update_task,
  update_task_returning,
}
use tork.Handlers.Completed.{
  complete_top_level_task, complete_task, complete_sub_task, complete_parallel_task,
  complete_each_task, complete_parent, complete_member, complete_row, count_each, count_parallel,
  record_result, with_result, fire_next, fires_next,
}
use tork.Handlers.Completed.Rules.{
  IsRanked, IsAbove, Keeps, Any, bind-Keeps, bind-eq, get_task-Keeps, update_task-Keeps,
  update_task_returning-Keeps, with_tx-Keeps, update_job-Keeps, get_next_task_outside-Keeps,
  update_task_outside-Keeps, ensure-Keeps, pure-Keeps, fail-Keeps, if-Keeps, publish-Keeps,
}

module _ (rank : String → ℕ) where
  complete_row-Keeps : (t u : Task) → Keeps rank Any (complete_row t u)
  unfolding complete_row
  complete_row-Keeps t u =
      bind-Keeps rank Any Any (ensure (is_completable u.state) (cannot_complete_task u.state)) _
        (ensure-Keeps rank (is_completable u.state) (cannot_complete_task u.state))
        λ _ _ w i. (i, tt)

  record_result-Keeps : (t : Task) → Keeps rank Any (record_result t)
  unfolding record_result
  record_result-Keeps t =
      if-Keeps rank (not (str_eq t.result "") && not (str_eq t.var ""))
        (update_job t.job_id (λ u. pure (with_result t u))) (pure tt)
        (update_job-Keeps rank t.job_id (with_result t)) (pure-Keeps rank tt)

  fire_next-Keeps : (id : String) → Keeps rank Any (fire_next id)
  unfolding fire_next
  fire_next-Keeps id =
      bind-Keeps rank Any Any (get_next_task_outside id) _ (get_next_task_outside-Keeps rank id)
        λ next _.
          bind-Keeps rank Any Any
            (update_task_outside next.id
              λ nu. record nu { info = record nu.info { state = TaskState.pending } })
            _ (update_task_outside-Keeps rank next.id _) λ _ _. publish-Keeps rank queue_pending _

  -- The elimination of the counters of a parent, a record of which may be missing.
  by_each-Keeps :
      {A : Type 0} (x : EachTask) (f : (e : EachInfo) (n : TaskNode) → M A)
      → ((e : EachInfo) (n : TaskNode) → Keeps rank Any (f e n))
      → Keeps rank {A = A} Any (elim x [ no_each ↦ fail panic | each_task e n ↦ f e n ])
  by_each-Keeps {A} no_each f h = fail-Keeps rank A panic
  by_each-Keeps (each_task e n) f h = h e n

  by_parallel-Keeps :
      {A : Type 0} (x : ParallelTask) (f : (ns : TaskNodes) (n : ℕ) → M A)
      → ((ns : TaskNodes) (n : ℕ) → Keeps rank Any (f ns n))
      → Keeps rank {A = A} Any (elim x [ no_parallel ↦ fail panic | parallel_task e n ↦ f e n ])
  by_parallel-Keeps {A} no_parallel f h = fail-Keeps rank A panic
  by_parallel-Keeps (parallel_task e n) f h = h e n

  count_each-Keeps : (u : Task) → Keeps rank Any (count_each u)
  unfolding count_each
  count_each-Keeps u = by_each-Keeps u.each _ λ e n.
      bind-Keeps rank Any Any (if fires_next e then fire_next u.id else pure tt) _
        (if-Keeps rank (fires_next e) (fire_next u.id) (pure tt) (fire_next-Keeps u.id)
          (pure-Keeps rank tt))
        λ _ _ w i. (i, tt)

  count_parallel-Keeps : (u : Task) → Keeps rank Any (count_parallel u)
  unfolding count_parallel
  count_parallel-Keeps u = by_parallel-Keeps u.parallel _ λ ns n w i. (i, tt)

  complete_member-Keeps :
      (count : Task → M (Task × Bool)) (t : Task)
      → ((u : Task) → Keeps rank Any (count u))
      → Keeps rank Any (complete_member count t)
  unfolding complete_member
  complete_member-Keeps count t h = with_tx-Keeps rank _ (
      bind-Keeps rank Any Any (update_task t.id (complete_row t)) _
        (update_task-Keeps rank t.id (complete_row t) (complete_row-Keeps t))
        λ _ _.
          bind-Keeps rank Any Any (update_task_returning t.parent_id count) _
            (update_task_returning-Keeps rank t.parent_id count h)
            λ last _.
              bind-Keeps rank Any Any (record_result t) (λ _. pure last) (record_result-Keeps t)
                λ _ _. pure-Keeps rank last)

  -- The completion of a parent does not depend on what is done for tasks that are not above.
  complete_parent-eq :
      (env : Env) (f g : Task → M (Unit {0})) (t : Task)
      → ((p : Task) (v : World)
          → IsAbove rank p
          → p.id ≡ t.parent_id
          → IsRanked rank v
          → f p v ≡ g p v)
      → (w : World) → IsRanked rank w
      → complete_parent env f t w ≡ complete_parent env g t w
  unfolding complete_parent
  complete_parent-eq env f g t h =
      bind-eq rank (λ u. IsAbove rank u × (u.id ≡ t.parent_id)) (get_task t.parent_id) _ _
        (get_task-Keeps rank t.parent_id)
        λ p q v i. h _ _ q.0 q.1 (record { now = i.now; before = i.before })

  module _ (env : Env) where
    if-eq :
        (b : Bool) (m n n' : M (Unit {0})) (w : World)
        → (b ≡ false → n w ≡ n' w)
        → (if b then m else n) w ≡ (if b then m else n') w
    if-eq true m n n' w h = refl
    if-eq false m n n' w h = h refl

    then-eq :
        (b : Bool) (m m' n : M (Unit {0})) (w : World)
        → m w ≡ m' w
        → (if b then m else n) w ≡ (if b then m' else n) w
    then-eq true m m' n w h = h
    then-eq false m m' n w h = refl

    module _ (f g : Task → M (Unit {0})) (t : Task)
        (agree : (p : Task) (v : World)
          → IsAbove rank p
          → p.id ≡ t.parent_id
          → IsRanked rank v
          → f p v ≡ g p v) where
      complete_member-eq :
          (count : Task → M (Task × Bool))
          → ((u : Task) → Keeps rank Any (count u))
          → (w : World) → IsRanked rank w
          → (complete_member count t >>= λ last. if last then complete_parent env f t else pure tt)
              w
            ≡ (complete_member count t >>= λ last.
                  if last then complete_parent env g t else pure tt)
                w
      complete_member-eq count h =
          bind-eq rank Any (complete_member count t) _ _ (complete_member-Keeps count t h)
            λ last _ v i.
              then-eq last (complete_parent env f t) (complete_parent env g t) (pure tt) v
                (complete_parent-eq env f g t agree v i)

      complete_each_task-eq :
          (w : World)
          → IsRanked rank w
          → complete_each_task env f t w ≡ complete_each_task env g t w
      unfolding complete_each_task
      complete_each_task-eq = complete_member-eq count_each count_each-Keeps

      complete_parallel_task-eq :
          (w : World)
          → IsRanked rank w
          → complete_parallel_task env f t w ≡ complete_parallel_task env g t w
      unfolding complete_parallel_task
      complete_parallel_task-eq = complete_member-eq count_parallel count_parallel-Keeps

      by_kind-eq :
          (x : ParallelTask) (w : World)
          → IsRanked rank w
          → (elim x as (λ _. M (Unit {0})) [
            | parallel_task _ _ ↦ complete_parallel_task env f t
            | no_parallel ↦ complete_each_task env f t
          ])
              w
            ≡ (elim x as (λ _. M (Unit {0})) [
              | parallel_task _ _ ↦ complete_parallel_task env g t
              | no_parallel ↦ complete_each_task env g t
            ])
                w
      by_kind-eq no_parallel = complete_each_task-eq
      by_kind-eq (parallel_task _ _) = complete_parallel_task-eq

      complete_sub_task-eq :
          (w : World) → IsRanked rank w → complete_sub_task env f t w ≡ complete_sub_task env g t w
      unfolding complete_sub_task
      complete_sub_task-eq =
          bind-eq rank (λ u. IsAbove rank u × (u.id ≡ t.parent_id)) (get_task t.parent_id) _ _
            (get_task-Keeps rank t.parent_id) λ p _. by_kind-eq p.parallel

    -- Where every task comes after its parent in some order, the completion of a task that has more
    -- fuel than its place in that order does not depend on how much more.
    complete_task-enough :
        (f g : ℕ) (t : Task)
        → IsAbove rank t
        → rank t.id < f
        → rank t.id < g
        → (w : World) → IsRanked rank w
        → complete_task env f t w ≡ complete_task env g t w
    unfolding complete_task
    complete_task-enough zero g t above h k w i = ground arith
    complete_task-enough (suc f) zero t above h k w i = ground arith
    complete_task-enough (suc f) (suc g) t above h k w i =
        if-eq (str_eq t.parent_id "") (complete_top_level_task env t) _ _ w λ nested.
          complete_sub_task-eq (complete_task env f) (complete_task env g) t
            (λ p v q same j.
              let below : rank t.parent_id < rank t.id =
                ground (arith, above, eq_iff t.parent_id "") in
              let less : rank p.id < rank t.id = subst (λ k. rank k < rank t.id) (sym same) below in
              complete_task-enough f g p q (omega arith) (omega arith) v j)
            w i

    -- One step of the recursion as the code has it: a top-level task, or a task inside another one, whose
    -- parent is completed by `again`.
    abbrev pub one_step : (Task → M (Unit {0})) → Task → M (Unit {0})
    one_step again t =
        if str_eq t.parent_id ""
        then complete_top_level_task env t
        else complete_sub_task env again t

    -- An action that follows the recursion of the code, at every task and in every world where tasks come
    -- after their parents.
    pub record Follows (g : Task → M (Unit {0})) : Type 0 where
      pub at : (t : Task) (w : World) → IsAbove rank t → IsRanked rank w → g t w ≡ one_step g t w

    step-eq :
        (g h : Task → M (Unit {0})) (t : Task)
        → IsAbove rank t
        → ((p : Task) (v : World)
            → IsAbove rank p
            → rank p.id < rank t.id
            → IsRanked rank v
            → g p v ≡ h p v)
        → (w : World) → IsRanked rank w
        → one_step g t w ≡ one_step h t w
    step-eq g h t above agree w i =
        if-eq (str_eq t.parent_id "") (complete_top_level_task env t) _ _ w λ nested.
          complete_sub_task-eq g h t
            (λ p v q same j.
              let below : rank t.parent_id < rank t.id =
                ground (arith, above, eq_iff t.parent_id "") in
              agree p v q (subst (λ k. rank k < rank t.id) (sym same) below) j)
            w i

    -- Any action that follows the recursion is what fuel computes.
    complete_task-Follows :
        (f : ℕ) (g : Task → M (Unit {0})) (t : Task)
        → Follows g
        → IsAbove rank t
        → rank t.id < f
        → (w : World) → IsRanked rank w
        → g t w ≡ complete_task env f t w
    unfolding complete_task
    complete_task-Follows zero g t follows above h w i = ground arith
    complete_task-Follows (suc f) g t follows above h w i =
        follows.at t w above i
        ∙ step-eq g (complete_task env f) t above
            (λ p v q less j. complete_task-Follows f g p follows q (omega arith) v j) w i

    -- Where every task comes after its parent in some order, the completion of a task that has more
    -- fuel than its place in that order takes the step of the code: it completes a top-level task, or
    -- counts a task inside another one and completes the parent in the same way, and does not run out
    -- of fuel in between. The recursion of the code ends: whatever follows it agrees with this.
    pub complete_task-recursion :
        (f : ℕ) (t : Task)
        → IsAbove rank t
        → rank t.id < f
        → (w : World) → IsRanked rank w
        → (complete_task env f t w ≡ one_step (complete_task env f) t w)
          × ((g : Task → M (Unit {0})) → Follows g → g t w ≡ complete_task env f t w)
    unfolding complete_task
    complete_task-recursion zero t above h w i = ground arith
    complete_task-recursion (suc f) t above h w i = (
      step-eq (complete_task env f) (complete_task env (suc f)) t above
          (λ p v q less j. complete_task-enough f (suc f) p q (omega arith) (omega arith) v j) w i,
      λ g follows. complete_task-Follows (suc f) g t follows above h w i,
    )
