-- ===== src/Tests/Jobs.antt =====
-- Jobs that end, tasks that fail.
use tork.Prelude.{◌≡◌, ◌≢◌, refl, some, [], ◌∷◌, ◌++◌, arith, true}
use tork.Task.{Task, TaskState}
use tork.Task.Clone
use tork.Job.{Job, JobState}
use tork.Eval
use tork.Eval.{evaluate_template, evaluate_expr}
use tork.Scheduler.Common.{as_map}
use tork.Exec.{World, ok, task_message, job_message}
use tork.Broker.Queues.{queue_completed}
use tork.Datastore.{
  find_row, task_key, job_key, active_tasks, get_active_tasks, update_task, execution_of,
  update_job, get_job,
}
use tork.Handlers.Errors
use tork.Handlers.Errors.{has_attempts, fail_row}
use tork.Handlers.Errors.Exhausted.{handle-exhausted}
use tork.Handlers.Cancel
use tork.Handlers.Cancel.{
  cancel_active_tasks, cancel_tasks, cancel_task, tell_holder, cancel_parent, mark_cancelled,
}
use tork.Handlers.Cancel.JobRow.{handle-job_row}
use tork.Handlers.Jobs
use tork.Handlers.Jobs.{complete_job}
use tork.Handlers.Jobs.SubJob.{complete_job-bad_output}
use tork.Handlers.Jobs.Lifecycle.{handle-completed, StaysCompleted}
use tork.Handlers.States.{is_under_way}
use tork.Api.{cancel_job}
use tork.Coordinator.{receive}
use tork.Coordinator.Cancelled.{asked, cancel_job-receive}
use tork.Handlers.Errors.Exhausted.{spent}
use tork.Tests.Samples.{
  done_row, parallel_row, failed_task, two_task_job, subjob, world_of, env, evaluator,
}

abbrev w : World
w = world_of (done_row ∷ []) (two_task_job ∷ [])

row_found : find_row task_key "t1" w.db.tasks ≡ some done_row
unfolding find_row
row_found = refl

job_found : find_row job_key "j1" w.db.jobs ≡ some two_task_job
unfolding find_row
job_found = refl

handle-job_row_example :
    find_row job_key "j1" (Cancel.handle two_task_job w).1.db.jobs
    ≡ some (record two_task_job { state = JobState.cancelled })
handle-job_row_example = handle-job_row two_task_job two_task_job w job_found

abbrev ended_job : Job
ended_job = record two_task_job { state = JobState.completed; result = "done" }

abbrev w_ended : World
w_ended = world_of (done_row ∷ []) (ended_job ∷ [])

ended_found : find_row job_key "j1" w_ended.db.jobs ≡ some ended_job
unfolding find_row
ended_found = refl

not_pending : two_task_job.state ≢ JobState.pending
not_pending = ground arith

-- A late message says that the job runs.
handle-completed_example :
    StaysCompleted two_task_job ended_job (Jobs.handle env Jobs.state_change two_task_job w_ended).1
handle-completed_example =
    handle-completed env two_task_job ended_job w_ended ended_found refl Jobs.state_change
      not_pending

abbrev w_sub : World
w_sub = world_of (parallel_row ∷ []) (subjob ∷ [])

sub_found : find_row job_key "s1" w_sub.db.jobs ≡ some subjob
unfolding find_row
sub_found = refl

parent_found : find_row task_key "p1" w_sub.db.tasks ≡ some parallel_row
unfolding find_row
parent_found = refl

bad_output :
    evaluate_template evaluator "{{bad}}" (as_map subjob.context) ≡ Eval.Result.err "no such name"
unfolding evaluate_template evaluate_expr
bad_output = refl

complete_job-bad_output_example :
    (p : Task) × ((complete_job env subjob w_sub).1.sent ≡ task_message queue_completed p ∷ [])
    × (p.id ≡ "p1")
    × (p.state ≡ TaskState.failed)
    × (p.error ≡ "no such name")
complete_job-bad_output_example =
    complete_job-bad_output env subjob subjob parallel_row w_sub sub_found refl refl parent_found
      "no such name" bad_output

-- A task that has failed with one attempt left.
abbrev tried_again : Task
tried_again = record failed_task {
  info = record failed_task.info {
    id = "new";
    created_at = some 101;
    state = TaskState.pending;
    retry = some (record { limit = 2; attempts = 2 });
  };
}

-- A task that was tried as often as its policy allows.
abbrev spent_task : Task
spent_task = record failed_task {
  info = record failed_task.info { retry = some (record { limit = 2; attempts = 2 }) };
}

handle-exhausted_example :
    find_row job_key "j1" (Errors.handle env spent_task w).1.db.jobs
    ≡ some (record two_task_job { state = JobState.failed; failed_at = some 100 })
handle-exhausted_example =
    handle-exhausted env two_task_job spent_task done_row w job_found row_found refl
      (spent (record { limit = 2; attempts = 2 }) (omega arith))

-- What the request reads, before it sets the state.
abbrev read_job : Job
read_job = record two_task_job { execution = execution_of "j1" w.db.tasks }

under_way : is_under_way two_task_job.state ≡ true
under_way = refl

cancelled_well : (Cancel.handle (asked "j1" two_task_job w) (cancel_job "j1" w).1).0 ≡ ok tt
unfolding Cancel.handle cancel_parent mark_cancelled update_job cancel_active_tasks get_active_tasks
    active_tasks cancel_tasks cancel_task tell_holder update_task cancel_job get_job asked
cancelled_well = refl

cancel_job-receive_example :
    ((cancel_job "j1" w).1.sent ≡ w.sent ++ job_message (asked "j1" two_task_job w) ∷ [])
    × (find_row job_key "j1"
          (receive env 3 (job_message (asked "j1" two_task_job w)) (cancel_job "j1" w).1).1.db.jobs
        ≡ some (record two_task_job { state = JobState.cancelled }))
cancel_job-receive_example =
    cancel_job-receive env 3 "j1" two_task_job w job_found under_way cancelled_well
