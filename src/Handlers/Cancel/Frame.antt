-- ===== src/Handlers/Cancel/Frame.antt =====
-- What a cancellation leaves alone.
use tork.Prelude.{◌≡◌, refl, String, List, [], ◌∷◌, arith}
use tork.Task.{Task}
use tork.Job.{Job}
use tork.Exec.{World}
use tork.Datastore.{get_active_tasks, get_task, get_job, select_node, update_task}
use tork.Handlers.Cancel.{
  tell_holder, cancel_task, cancel_tasks, cancel_active_tasks, cancel_parent,
}

cancel_task-jobs : (t : Task) (w : World) → (cancel_task t w).1.db.jobs ≡ w.db.jobs
unfolding cancel_task update_task get_job select_node tell_holder
cancel_task-jobs t w = ground arith

cancel_tasks-jobs : (ts : List Task) (w : World) → (cancel_tasks ts w).1.db.jobs ≡ w.db.jobs
unfolding cancel_tasks
cancel_tasks-jobs [] w = refl
cancel_tasks-jobs (t ∷ ts) w =
    ground (arith, cancel_task-jobs t w, cancel_tasks-jobs ts (cancel_task t w).1)

pub cancel_active_tasks-jobs :
    (id : String) (w : World) → (cancel_active_tasks id w).1.db.jobs ≡ w.db.jobs
unfolding cancel_active_tasks get_active_tasks
cancel_active_tasks-jobs id w = cancel_tasks-jobs _ w

pub cancel_parent-jobs : (j : Job) (w : World) → (cancel_parent j w).1.db.jobs ≡ w.db.jobs
unfolding cancel_parent get_task get_job
cancel_parent-jobs j w = ground arith
