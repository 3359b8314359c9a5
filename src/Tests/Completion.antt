-- ===== src/Tests/Completion.antt =====
-- The completion of top-level tasks.
use tork.Prelude.{◌≡◌, refl, some, none, [], ◌∷◌, arith}
use tork.Task.{Task}
use tork.Exec.{World, ok, task_message}
use tork.Broker.Queues.{queue_pending}
use tork.Datastore.{find_row, task_key, job_key}
use tork.Handlers.Fire.Placed.{IsPlaced}
use tork.Handlers.Completed.{complete_top_level_task}
use tork.Handlers.Completed.Advance.{complete_top_level_task-next}
use tork.Handlers.Completed.Advance.{complete_top_level_task-last, after_tx, advanced_row}
use tork.Handlers.Jobs
use tork.Job.{Job, JobState}
use tork.Datastore.{execution_of}
use tork.Datastore.RoundTrip.{as_created}
use tork.Scheduler.Common.{as_map}
use tork.Handlers.Fire.Placed.{IsReady}
use tork.Handlers.Completed.Advance.{placed}
use tork.Tests.Samples.{done_task, done_row, two_task_job, world_of, env}

abbrev w : World
w = world_of (done_row ∷ []) (two_task_job ∷ [])

row_found : find_row task_key "t1" w.db.tasks ≡ some done_row
unfolding find_row
row_found = refl

job_found : find_row job_key "j1" w.db.jobs ≡ some two_task_job
unfolding find_row
job_found = refl

new_free : find_row task_key "new" w.db.tasks ≡ none
unfolding find_row
new_free = refl

abbrev moved_job : Job
moved_job = advanced_row done_task done_row two_task_job w row_found job_found refl

complete_top_level_task-next_example :
    (n : Task) × ((complete_top_level_task env done_task w).0 ≡ ok tt)
    × ((complete_top_level_task env done_task w).1.sent ≡ task_message queue_pending n ∷ [])
    × (find_row task_key n.id (complete_top_level_task env done_task w).1.db.tasks
        ≡ some (as_created env n))
    × IsPlaced two_task_job 2 "new" n
    × IsReady env.evaluator (as_map moved_job.context) 100 (placed "j1" 2 100 "new" done_row) n
    × (find_row job_key "j1" (complete_top_level_task env done_task w).1.db.jobs ≡ some moved_job)
    × (moved_job.position ≡ 2)
complete_top_level_task-next_example =
    complete_top_level_task-next done_task done_row two_task_job w row_found job_found refl env
      done_row refl new_free

-- The same job at its last position.
abbrev last_job : Job
last_job = record two_task_job { position = 2 }

abbrev w_last : World
w_last = world_of (done_row ∷ []) (last_job ∷ [])

last_row_found : find_row task_key "t1" w_last.db.tasks ≡ some done_row
unfolding find_row
last_row_found = refl

last_job_found : find_row job_key "j1" w_last.db.jobs ≡ some last_job
unfolding find_row
last_job_found = refl

abbrev w_after : World
w_after = after_tx done_task done_row last_job w_last last_row_found last_job_found refl

complete_top_level_task-last_example :
    complete_top_level_task env done_task w_last
    ≡ Jobs.handle env Jobs.state_change
        (record (advanced_row done_task done_row last_job w_last last_row_found last_job_found
          refl) {
            execution = execution_of "j1" w_after.db.tasks;
            state = JobState.completed;
            completed_at = some 100;
          })
        (record w_after { readings = 1 })
complete_top_level_task-last_example =
    complete_top_level_task-last done_task done_row last_job w_last last_row_found last_job_found
      refl env (omega arith)

-- A task that was completed before.
abbrev w_again : World
w_again = world_of (done_task ∷ []) (two_task_job ∷ [])

again_found : find_row task_key "t1" w_again.db.tasks ≡ some done_task
unfolding find_row
again_found = refl
