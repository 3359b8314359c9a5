-- ===== src/Moves/Jobs.antt =====
-- The handler of jobs refines the machine of job states.
use mathlib.Core.Path.{subst}
use mathlib.Core.Option.{some_inj}
use tork.Eval
use tork.Prelude.{
  String, true, false, Option, none, some, ◌≡◌, ◌≢◌, refl, sym, arith, ◌||◌, ◌⊎◌, inl, inr, ap,
}
use tork.Job.{JobState, Job}
use tork.Exec.{World, Env, M, Result, pure, ensure, cannot_restart_job, ◌>>◌}
use tork.Datastore.{find_row, job_key, update_job, update_job_returning, get_task, create_task}
use tork.Handlers.States.{is_under_way, is_failed, is_cancelled}
use tork.Handlers.Jobs
use tork.Handlers.Jobs.{
  EventType, state_change, fail_job, mark_job_as_running, complete_job, finish_job, deletion_time,
  delete_at_or, restart_job, dispatch,
}
use tork.Moves.{
  complete_scheduled, complete_running, fail_scheduled, fail_running, restart_failed,
  restart_cancelled, JobSteps, one, MovedTo, Moves, Moves-refl, Moves-then_same,
}
use tork.Moves.Rows.{StepsOn, drop_extra, update_job-Moves, update_job_returning-Moves}
use tork.Moves.UnderWay.{fail_job-Moves, cancel-Moves, mark_job_as_running-Moves}

-- The state of the row that an update comes to.
state_of : Result Job → Option JobState
state_of (Eval.Result.ok u) = some u.state
state_of (Eval.Result.err e) = none

steps_to : (s t : JobState) (r : Result Job) → state_of r ≡ some t → JobSteps s t → StepsOn s r
unfolding state_of
steps_to s t (Eval.Result.ok u) same steps = subst (λ x. JobSteps s x) (sym (some_inj.0 same)) steps
steps_to s t (Eval.Result.err e) same steps = tt

-- An error moves nothing.
stays : (s : JobState) (r : Result Job) → state_of r ≡ none → StepsOn s r
unfolding state_of
stays s (Eval.Result.ok u) same = ground arith
stays s (Eval.Result.err e) same = tt

restart_update : Job → Job → M Job
restart_update j u = do
  ensure (is_failed u.state || is_cancelled u.state) (cannot_restart_job j.state)
  pure (record u { state = JobState.running; failed_at = none })

restart_steps :
    (s : JobState) (j u : Job) (w : World) → u.state ≡ s → StepsOn s (restart_update j u w).0
unfolding restart_update state_of
restart_steps JobState.failed j u w same =
    steps_to JobState.failed JobState.running (restart_update j u w).0 (ground (arith, same))
      (one restart_failed)
restart_steps JobState.cancelled j u w same =
    steps_to JobState.cancelled JobState.running (restart_update j u w).0 (ground (arith, same))
      (one restart_cancelled)
restart_steps s j u w same = stays s (restart_update j u w).0 (ground (arith, same))

restart_job-jobs :
    (env : Env) (j : Job) (w : World)
    → (restart_job env j w).1.db.jobs ≡ (update_job j.id (restart_update j) w).1.db.jobs
unfolding restart_job restart_update create_task
restart_job-jobs env j w = ground arith

complete_job-jobs :
    (env : Env) (j : Job) (w : World)
    → (complete_job env j w).1.db.jobs ≡ (update_job_returning j.id (finish_job env j) w).1.db.jobs
unfolding complete_job get_task
complete_job-jobs env j w = ground arith

finish_job-jobs : (env : Env) (j u : Job) (w : World) → (finish_job env j u w).1.db.jobs ≡ w.db.jobs
unfolding finish_job deletion_time
finish_job-jobs env j u w = ground arith

-- Only a job that is under way is completed, or fails because its output does not evaluate.
finish_target :
    (env : Env) (j u : Job) (w : World)
    → is_under_way u.state ≡ true
    → (state_of (drop_extra (finish_job env j u w).0) ≡ some JobState.completed)
      ⊎ (state_of (drop_extra (finish_job env j u w).0) ≡ some JobState.failed)
unfolding finish_job deletion_time delete_at_or state_of
finish_target env j u w way = ground (arith, way)

finish_refused :
    (env : Env) (j u : Job) (w : World)
    → is_under_way u.state ≡ false
    → state_of (drop_extra (finish_job env j u w).0) ≡ none
unfolding finish_job state_of
finish_refused env j u w way = ground (arith, way)

finish_steps :
    (env : Env) (s : JobState) (j u : Job) (w : World)
    → u.state ≡ s
    → StepsOn s (drop_extra (finish_job env j u w).0)
finish_steps env JobState.running j u w same =
    let r = drop_extra (finish_job env j u w).0 in
    elim (finish_target env j u w (ap is_under_way same)) [
      | inl done ↦ steps_to JobState.running JobState.completed r done (one complete_running)
      | inr broken ↦ steps_to JobState.running JobState.failed r broken (one fail_running)
    ]
finish_steps env JobState.scheduled j u w same =
    let r = drop_extra (finish_job env j u w).0 in
    elim (finish_target env j u w (ap is_under_way same)) [
      | inl done ↦ steps_to JobState.scheduled JobState.completed r done (one complete_scheduled)
      | inr broken ↦ steps_to JobState.scheduled JobState.failed r broken (one fail_scheduled)
    ]
finish_steps env s j u w same =
    stays s (drop_extra (finish_job env j u w).0) (finish_refused env j u w (ap is_under_way same))

pub complete_job-Moves :
    (env : Env) (j : Job) (w : World) → Moves w.db.jobs (complete_job env j w).1.db.jobs
complete_job-Moves env j w =
    Moves-then_same w.db.jobs (update_job_returning j.id (finish_job env j) w).1.db.jobs
      (complete_job env j w).1.db.jobs
      (update_job_returning-Moves j.id (finish_job env j) w (λ u. finish_job-jobs env j u w)
        (λ u. finish_steps env u.state j u w refl))
      (complete_job-jobs env j w)

restart_update-jobs : (j u : Job) (w : World) → (restart_update j u w).1.db.jobs ≡ w.db.jobs
unfolding restart_update
restart_update-jobs j u w = ground arith

pub restart_job-Moves :
    (env : Env) (j : Job) (w : World) → Moves w.db.jobs (restart_job env j w).1.db.jobs
restart_job-Moves env j w =
    Moves-then_same w.db.jobs (update_job j.id (restart_update j) w).1.db.jobs
      (restart_job env j w).1.db.jobs
      (update_job-Moves j.id (restart_update j) w (λ u. restart_update-jobs j u w)
        (λ u. restart_steps u.state j u w refl))
      (restart_job-jobs env j w)

pub dispatch-Moves :
    (env : Env) (s : JobState) (j : Job) (w : World)
    → s ≢ JobState.pending
    → Moves w.db.jobs (dispatch env s j w).1.db.jobs
unfolding dispatch
dispatch-Moves env JobState.pending j w ne = absurd (ne refl)
dispatch-Moves env JobState.cancelled j w ne = cancel-Moves j w
dispatch-Moves env JobState.restart j w ne = restart_job-Moves env j w
dispatch-Moves env JobState.completed j w ne = complete_job-Moves env j w
dispatch-Moves env JobState.failed j w ne = fail_job-Moves j w
dispatch-Moves env JobState.running j w ne = mark_job_as_running-Moves j w
dispatch-Moves env JobState.scheduled j w ne = Moves-refl w.db.jobs
dispatch-Moves env (JobState.other text) j w ne = Moves-refl w.db.jobs

-- Whatever job a message is about, unless its state is PENDING: after the handler of jobs, the row of
-- every job is still there, and its state is one that moves of the machine lead to from the state
-- before.
pub handle-JobSteps :
    (env : Env) (j : Job) (w : World) (k : String) (row : Job)
    → j.state ≢ JobState.pending
    → find_row job_key k w.db.jobs ≡ some row
    → MovedTo k row (Jobs.handle env state_change j w).1.db.jobs
unfolding Jobs.handle
handle-JobSteps env j w k row ne found = dispatch-Moves env j.state j w ne k row found
