-- ===== src/Moves/Completed.antt =====
-- The handler of completed tasks moves jobs along the machine.
use mathlib.Core.Path.{subst}
use tork.Prelude.{
  ℕ, suc, zero, String, Bool, not, ◌&&◌, some, ◌≡◌, ◌≢◌, refl, sym, arith, str_eq, leb, length,
  if◌then◌else◌,
}
use tork.Task.{TaskState, Task, each_task, no_each, parallel_task, no_parallel}
use tork.User.{Time}
use tork.Job.{JobState, Job}
use tork.Broker.Queues.{queue_pending}
use tork.Exec.{
  Env, M, pure, ◌>>=◌, ◌>>◌, fail, panic, publish_task, time_now, new_uuid, ensure,
  invalid_completion_state,
}
use tork.Datastore.{
  update_job, update_task, update_task_returning, get_next_task_outside, update_task_outside,
  get_task, get_job, create_task,
}
use tork.Handlers.Fire.{task_at, place_task, evaluate_or_fail}
use tork.Handlers.Jobs
use tork.Handlers.Jobs.{EventType, state_change, progress}
use tork.Handlers.Completed
use tork.Handlers.Completed.{
  complete_row, with_result, record_result, fire_next, fires_next, count_each, count_parallel,
  counted, all_complete, advance_job, complete_member, advance, move_on, complete_top_level_task,
  complete_parent, complete_each_task, complete_parallel_task, complete_sub_task, complete_task,
  is_completion,
}
use tork.Moves.{JobSteps, here, Moves-refl}
use tork.Moves.Rows.{update_job-Moves}
use tork.Moves.Jobs.{dispatch-Moves}
use tork.Moves.Actions.{
  IsMover, IsStill, IsInner, IsStill-IsMover, IsStill-IsInner, if-IsMover, if-IsStill, if-IsInner,
  bind-IsMover, bind-IsStill, bind-IsInner, still_then, with_tx-IsMover,
}
use tork.Moves.Still.{
  time_now-IsStill, new_uuid-IsStill, pure-IsStill, get_job-IsStill, get_task-IsStill,
  ensure-IsStill, create_task-IsStill, update_task-IsStill, update_task_returning-IsStill,
}

-- An update of a row of a job that keeps its state.
pub keep_state-IsInner :
    (id : String) (f : Job → Job)
    → ((u : Job) → (f u).state ≡ u.state)
    → IsInner (update_job id (λ u. pure (f u)))
unfolding update_job
keep_state-IsInner id f same = record {
  at = λ w.
      update_job-Moves id (λ u. pure (f u)) w (λ u. refl)
        (λ u. subst (λ s. JobSteps u.state s) (sym (same u)) here);
  outside = λ w. ground arith;
}

-- The handler of jobs, but for a job to start.
pub handle_job-IsMover :
    (env : Env) (j : Job) → j.state ≢ JobState.pending → IsMover (Jobs.handle env state_change j)
unfolding Jobs.handle
handle_job-IsMover env j ne = record { at = λ w. dispatch-Moves env j.state j w ne }

pub progress-IsStill : (env : Env) (j : Job) → IsStill (Jobs.handle env progress j)
unfolding Jobs.handle
progress-IsStill env j = record { at = λ w. refl; outside = λ w. refl }

pub task_at-IsStill : (j : Job) (n : ℕ) → IsStill (task_at j n)
unfolding task_at
task_at-IsStill j zero = record { at = λ w. refl; outside = λ w. refl }
task_at-IsStill j (suc i) = record { at = λ w. ground arith; outside = λ w. ground arith }

complete_row-IsStill : (t u : Task) → IsStill (complete_row t u)
unfolding complete_row
complete_row-IsStill t u = record { at = λ w. ground arith; outside = λ w. ground arith }

with_result-state : (t : Task) (u : Job) → (with_result t u).state ≡ u.state
unfolding with_result
with_result-state t u = ground arith

record_result-IsInner : (t : Task) → IsInner (record_result t)
unfolding record_result
record_result-IsInner t =
    if-IsInner (not (str_eq t.result "") && not (str_eq t.var ""))
      (update_job t.job_id (λ u. pure (with_result t u))) (pure tt)
      (keep_state-IsInner t.job_id (with_result t) (with_result-state t))
      (IsStill-IsInner _ (pure-IsStill tt))

fire_next-IsStill : (id : String) → IsStill (fire_next id)
unfolding fire_next get_next_task_outside update_task_outside
fire_next-IsStill id = record { at = λ w. ground arith; outside = λ w. ground arith }

count_each-IsStill : (u : Task) → IsStill (count_each u)
unfolding count_each
count_each-IsStill u =
    elim u.each
      as (λ e'. IsStill {A = Task × Bool} (elim e' [
        | no_each ↦ fail panic
        | each_task e n ↦ do
          (if fires_next e then fire_next u.id else pure tt)
          pure (record u { each = each_task (counted e) n }, all_complete e)
      ])) [
        | no_each ↦ record { at = λ w. refl; outside = λ w. refl }
        | each_task e n ↦
            bind-IsStill (if fires_next e then fire_next u.id else pure tt)
              (λ done. pure (record u { each = each_task (counted e) n }, all_complete e))
              (if-IsStill (fires_next e) (fire_next u.id) (pure tt) (fire_next-IsStill u.id)
                (pure-IsStill tt))
              λ done. pure-IsStill _
      ]

count_parallel-IsStill : (u : Task) → IsStill (count_parallel u)
unfolding count_parallel
count_parallel-IsStill u = record { at = λ w. ground arith; outside = λ w. ground arith }

complete_member-IsMover :
    (count : Task → M (Task × Bool)) (t : Task)
    → ((u : Task) → IsStill (count u))
    → IsMover (complete_member count t)
unfolding complete_member
complete_member-IsMover count t still = with_tx-IsMover _ (
    bind-IsInner (update_task t.id (complete_row t)) _
      (IsStill-IsInner _ (update_task-IsStill t.id (complete_row t) (complete_row-IsStill t)))
      λ done.
        bind-IsInner (update_task_returning t.parent_id count) _
          (IsStill-IsInner _ (update_task_returning-IsStill t.parent_id count still))
          λ is_last.
            bind-IsInner (record_result t) (λ done. pure is_last) (record_result-IsInner t)
              λ done. IsStill-IsInner _ (pure-IsStill is_last))

advance_job-state : (t : Task) (u : Job) → (advance_job t u).state ≡ u.state
unfolding advance_job
advance_job-state t u = ground arith

advance-IsMover : (t : Task) → IsMover (advance t)
unfolding advance
advance-IsMover t = with_tx-IsMover _ (
    bind-IsInner (update_task t.id (complete_row t)) _
      (IsStill-IsInner _ (update_task-IsStill t.id (complete_row t) (complete_row-IsStill t)))
      λ done. keep_state-IsInner t.job_id (advance_job t) (advance_job-state t))

module _ (env : Env) where
  -- The task at the position of the job is created and sent.
  next-IsMover :
      (j : Job) (now : Time)
      → IsMover (do
        next ← task_at j j.position
        id ← new_uuid env
        let next' = evaluate_or_fail env j now (place_task j j.position now id next)
        create_task env next'
        publish_task queue_pending next')
  next-IsMover j now = still_then (task_at j j.position) _ (task_at-IsStill j j.position) λ next.
      still_then (new_uuid env) _ (new_uuid-IsStill env) λ id.
        let next' = evaluate_or_fail env j now (place_task j j.position now id next) in
        still_then (create_task env next') (λ done. publish_task queue_pending next')
          (create_task-IsStill env next') λ done. record { at = λ w. Moves-refl w.db.jobs }

  move_on-IsMover : (t : Task) → IsMover (move_on env t)
  unfolding move_on
  move_on-IsMover t = still_then (get_job t.job_id) _ (get_job-IsStill t.job_id) λ j.
      still_then (Jobs.handle env progress j) _ (progress-IsStill env j) λ done.
        still_then (time_now env) _ (time_now-IsStill env) λ now.
          if-IsMover (leb j.position (length j.tasks)) _ _ (next-IsMover j now) (
            handle_job-IsMover env
              (record j { state = JobState.completed; completed_at = some now }) (ground arith))

  top_level-IsMover : (t : Task) → IsMover (complete_top_level_task env t)
  unfolding complete_top_level_task
  top_level-IsMover t =
      bind-IsMover (advance t) (λ done. move_on env t) (advance-IsMover t) λ done. move_on-IsMover t

  module _ (again : Task → M (Unit {0})) (moves : (t : Task) → IsMover (again t)) where
    parent-IsMover : (t : Task) → IsMover (complete_parent env again t)
    unfolding complete_parent
    parent-IsMover t = still_then (get_task t.parent_id) _ (get_task-IsStill t.parent_id) λ parent.
        still_then (time_now env) _ (time_now-IsStill env) λ now. moves (record parent {
          info = record parent.info { state = TaskState.completed; completed_at = some now };
        })

    member-IsMover :
        (count : Task → M (Task × Bool)) (t : Task)
        → ((u : Task) → IsStill (count u))
        → IsMover (do
          is_last ← complete_member count t
          if is_last then complete_parent env again t else pure tt)
    member-IsMover count t still =
        bind-IsMover (complete_member count t) _ (complete_member-IsMover count t still) λ is_last.
          if-IsMover is_last (complete_parent env again t) (pure tt) (parent-IsMover t)
            (IsStill-IsMover _ (pure-IsStill tt))

    sub_task-IsMover : (t : Task) → IsMover (complete_sub_task env again t)
    unfolding complete_sub_task complete_each_task complete_parallel_task
    sub_task-IsMover t =
        still_then (get_task t.parent_id) _ (get_task-IsStill t.parent_id) λ parent.
          elim parent.parallel
            as (λ p. IsMover (elim p [
              | parallel_task _ _ ↦ complete_parallel_task env again t
              | no_parallel ↦ complete_each_task env again t
            ])) [
              | parallel_task ts n ↦ member-IsMover count_parallel t count_parallel-IsStill
              | no_parallel ↦ member-IsMover count_each t count_each-IsStill
            ]

  complete_task-IsMover : (fuel : ℕ) (t : Task) → IsMover (complete_task env fuel t)
  unfolding complete_task
  complete_task-IsMover zero t = record { at = λ w. Moves-refl w.db.jobs }
  complete_task-IsMover (suc fuel) t =
      if-IsMover (str_eq t.parent_id "") (complete_top_level_task env t)
        (complete_sub_task env (complete_task env fuel) t) (top_level-IsMover t)
        (sub_task-IsMover (complete_task env fuel) (λ u. complete_task-IsMover fuel u) t)

  pub completed-IsMover : (fuel : ℕ) (t : Task) → IsMover (Completed.handle env fuel t)
  unfolding Completed.handle
  completed-IsMover fuel t = still_then (time_now env) _ (time_now-IsStill env) λ now.
      still_then (ensure (is_completion t.state) (invalid_completion_state t.state)) _
        (ensure-IsStill (is_completion t.state) (invalid_completion_state t.state))
        λ done.
          complete_task-IsMover fuel (record t { info = record t.info { completed_at = some now } })
