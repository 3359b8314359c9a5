-- ===== src/Handlers/Cancel.antt =====
-- internal/coordinator/handlers/cancel.go
pub mod Frame
pub mod Cancelled
pub mod JobRow
use tork.Handlers.States.{is_under_way}
use tork.Prelude.{String, List, [], ◌∷◌, str_eq, if◌then◌else◌}
use tork.Task.{TaskState, subjob_task, no_subjob, Task}
use tork.Job.{JobState, Job}
use tork.Eval
use tork.Eval.{evaluate_task, evaluate_template}
use tork.Exec.{M, panic, pure, fail, ◌>>=◌, ◌>>◌, publish_task, publish_job}
use tork.Datastore.{get_task, get_job, select_node, update_task, update_job, get_active_tasks}

-- `errors.Wrapf(err, …, pt.ID)` reads a field of the nil pointer that came with the error.
or_panic : {A : Type 0} → M A → M A
or_panic m w =
    let (r, w') = m w in
    elim r [ Eval.Result.ok a ↦ (Eval.Result.ok a, w') | Eval.Result.err e ↦ fail panic w' ]

unfoldable pub cancel_row : Task → Task
cancel_row u = record u { info = record u.info { state = TaskState.cancelled } }

-- Who has the task is told: the job that the task stands for, or the node that runs it, of which only
-- the queue is used, and that is in its row.
unfoldable pub tell_holder : Task → M (Unit {0})
unfolding cancel_row
tell_holder t = elim t.subjob [
  | subjob_task s _ ↦ do sj ← get_job s.id; publish_job (record sj { state = JobState.cancelled })
  | no_subjob ↦
      if str_eq t.node_id ""
      then pure tt
      else (do node ← select_node t.node_id; publish_task node.queue (cancel_row t))
]

unfoldable pub cancel_task : Task → M (Unit {0})
unfolding cancel_row
cancel_task t = do update_task t.id (λ u. pure (cancel_row u)); tell_holder t

unfoldable pub cancel_tasks : List Task → M (Unit {0})
cancel_tasks [] = pure tt
cancel_tasks (t ∷ ts) = do cancel_task t; cancel_tasks ts

unfoldable pub cancel_active_tasks : String → M (Unit {0})
cancel_active_tasks job_id = do tasks ← get_active_tasks job_id; cancel_tasks tasks

-- The job of the parent task is told to cancel as well.
unfoldable pub cancel_parent : Job → M (Unit {0})
unfolding or_panic
cancel_parent j = if str_eq j.parent_id "" then pure tt else (do
  pt ← or_panic (get_task j.parent_id)
  pj ← or_panic (get_job pt.job_id)
  publish_job (record pj { state = JobState.cancelled }))

unfoldable pub mark_cancelled : Job → Job
mark_cancelled u = if is_under_way u.state then record u { state = JobState.cancelled } else u

unfoldable pub handle : Job → M (Unit {0})
unfolding mark_cancelled
handle j = do
  update_job j.id λ u. pure (mark_cancelled u)
  cancel_parent j
  cancel_active_tasks j.id
