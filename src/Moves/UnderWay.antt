-- ===== src/Moves/UnderWay.antt =====
-- Jobs that fail, are cancelled or start to run.
use mathlib.Core.Path.{subst}
use tork.Prelude.{none, ◌≡◌, refl, arith, if◌then◌else◌}
use tork.Job.{JobState, Job}
use tork.Exec.{World, M, pure}
use tork.Datastore.{update_job, get_task, get_job}
use tork.Handlers.States.{is_scheduled, is_under_way}
use tork.Handlers.Cancel
use tork.Handlers.Cancel.{cancel_active_tasks, cancel_parent, mark_cancelled}
use tork.Handlers.Cancel.Frame.{cancel_active_tasks-jobs, cancel_parent-jobs}
use tork.Handlers.Jobs.{fail_job, mark_job_as_running}
use tork.Moves.{
  run, fail_scheduled, fail_running, cancel_scheduled, cancel_running, JobSteps, here, one, Moves,
  Moves-then_same,
}
use tork.Moves.Rows.{update_job-Moves}

-- A row that is under way moves on to the state of another one, and any other stays.
under_way_steps :
    (s : JobState) (u f : Job)
    → u.state ≡ s
    → JobSteps JobState.running f.state
    → JobSteps JobState.scheduled f.state
    → JobSteps s (if is_under_way s then f else u).state
under_way_steps JobState.running u f same from_run from_wait = from_run
under_way_steps JobState.scheduled u f same from_run from_wait = from_wait
under_way_steps JobState.pending u f same from_run from_wait =
    subst (λ x. JobSteps x u.state) same here
under_way_steps JobState.cancelled u f same from_run from_wait =
    subst (λ x. JobSteps x u.state) same here
under_way_steps JobState.completed u f same from_run from_wait =
    subst (λ x. JobSteps x u.state) same here
under_way_steps JobState.failed u f same from_run from_wait =
    subst (λ x. JobSteps x u.state) same here
under_way_steps JobState.restart u f same from_run from_wait =
    subst (λ x. JobSteps x u.state) same here
under_way_steps (JobState.other text) u f same from_run from_wait =
    subst (λ x. JobSteps x u.state) same here

abbrev fail_update : Job → Job → M Job
fail_update j u = pure (
    if is_under_way u.state
    then record u { state = JobState.failed; failed_at = j.failed_at }
    else u)

fail_job-jobs :
    (j : Job) (w : World) → (fail_job j w).1.db.jobs ≡ (update_job j.id (fail_update j) w).1.db.jobs
unfolding fail_job get_task get_job
fail_job-jobs j w =
    ground (arith, cancel_active_tasks-jobs j.id (update_job j.id (fail_update j) w).1)

pub fail_job-Moves : (j : Job) (w : World) → Moves w.db.jobs (fail_job j w).1.db.jobs
fail_job-Moves j w =
    Moves-then_same w.db.jobs (update_job j.id (fail_update j) w).1.db.jobs (fail_job j w).1.db.jobs
      (update_job-Moves j.id (fail_update j) w (λ u. refl)
        (λ u. under_way_steps u.state u _ refl (one fail_running) (one fail_scheduled)))
      (fail_job-jobs j w)

abbrev cancel_update : Job → M Job
cancel_update u = pure (mark_cancelled u)

cancel-jobs :
    (j : Job) (w : World)
    → (Cancel.handle j w).1.db.jobs ≡ (update_job j.id cancel_update w).1.db.jobs
unfolding Cancel.handle
cancel-jobs j w =
    let v = (update_job j.id cancel_update w).1 in
    ground (arith, cancel_parent-jobs j v, cancel_active_tasks-jobs j.id (cancel_parent j v).1)

cancel_steps : (u : Job) → JobSteps u.state (mark_cancelled u).state
unfolding mark_cancelled
cancel_steps u =
    under_way_steps u.state u (record u { state = JobState.cancelled }) refl (one cancel_running)
      (one cancel_scheduled)

pub cancel-Moves : (j : Job) (w : World) → Moves w.db.jobs (Cancel.handle j w).1.db.jobs
cancel-Moves j w =
    Moves-then_same w.db.jobs (update_job j.id cancel_update w).1.db.jobs
      (Cancel.handle j w).1.db.jobs
      (update_job-Moves j.id cancel_update w (λ u. refl) (λ u. cancel_steps u)) (cancel-jobs j w)

run_steps :
    (s : JobState) (u : Job)
    → u.state ≡ s
    → JobSteps s
        (if is_scheduled s
          then record u { state = JobState.running; failed_at = none }
          else u).state
run_steps JobState.scheduled u same = one run
run_steps JobState.running u same = subst (λ x. JobSteps x u.state) same here
run_steps JobState.pending u same = subst (λ x. JobSteps x u.state) same here
run_steps JobState.cancelled u same = subst (λ x. JobSteps x u.state) same here
run_steps JobState.completed u same = subst (λ x. JobSteps x u.state) same here
run_steps JobState.failed u same = subst (λ x. JobSteps x u.state) same here
run_steps JobState.restart u same = subst (λ x. JobSteps x u.state) same here
run_steps (JobState.other text) u same = subst (λ x. JobSteps x u.state) same here

pub mark_job_as_running-Moves :
    (j : Job) (w : World) → Moves w.db.jobs (mark_job_as_running j w).1.db.jobs
unfolding mark_job_as_running
mark_job_as_running-Moves j w =
    update_job-Moves j.id _ w (λ u. refl) (λ u. run_steps u.state u refl)
