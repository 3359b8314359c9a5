-- ===== src/Moves/Still.antt =====
-- What leaves the rows of jobs alone: the clock, the identifiers, the broker, and the operations of the
-- datastore on tasks.
use tork.Prelude.{String, Bool, true, false, refl, arith}
use tork.Task.{Task}
use tork.Exec.{Env, M, Error, Message, pure, ensure, time_now, new_uuid, publish}
use tork.Datastore.{
  get_task, get_job, get_node, select_node, put_task, written_task, update_task,
  update_task_returning, create_task,
}
use tork.Moves.Actions.{IsStill, bind-IsStill}

pub time_now-IsStill : (env : Env) → IsStill (time_now env)
time_now-IsStill env = record { at = λ w. refl; outside = λ w. refl }

pub new_uuid-IsStill : (env : Env) → IsStill (new_uuid env)
new_uuid-IsStill env = record { at = λ w. refl; outside = λ w. refl }

pub publish-IsStill : (m : Message) → IsStill (publish m)
publish-IsStill m = record { at = λ w. refl; outside = λ w. refl }

pub pure-IsStill : {A : Type 0} (a : A) → IsStill (pure a)
pure-IsStill a = record { at = λ w. refl; outside = λ w. refl }

pub get_task-IsStill : (id : String) → IsStill (get_task id)
unfolding get_task
get_task-IsStill id = record { at = λ w. ground arith; outside = λ w. ground arith }

pub get_job-IsStill : (id : String) → IsStill (get_job id)
unfolding get_job
get_job-IsStill id = record { at = λ w. ground arith; outside = λ w. ground arith }

pub get_node-IsStill : (env : Env) (id : String) → IsStill (get_node env id)
unfolding get_node select_node
get_node-IsStill env id = record { at = λ w. ground arith; outside = λ w. ground arith }

put_task-IsStill : (t : Task) → IsStill (put_task t)
unfolding put_task
put_task-IsStill t = record { at = λ w. refl; outside = λ w. refl }

pub create_task-IsStill : (env : Env) (t : Task) → IsStill (create_task env t)
unfolding create_task
create_task-IsStill env t = record { at = λ w. ground arith; outside = λ w. ground arith }

pub update_task-IsStill :
    (id : String) (modify : Task → M Task)
    → ((u : Task) → IsStill (modify u))
    → IsStill (update_task id modify)
unfolding update_task
update_task-IsStill id modify still =
    bind-IsStill (get_task id) _ (get_task-IsStill id)
      λ old. bind-IsStill (modify old) _ (still old) λ new. put_task-IsStill (written_task old new)

pub update_task_returning-IsStill :
    {A : Type 0}
    → (id : String) (modify : Task → M (Task × A)) → ((u : Task) → IsStill (modify u))
    → IsStill (update_task_returning id modify)
unfolding update_task_returning
update_task_returning-IsStill id modify still =
    bind-IsStill (get_task id) _ (get_task-IsStill id) λ old.
      bind-IsStill (modify old) _ (still old) λ (new, a).
        bind-IsStill (put_task (written_task old new)) _ (put_task-IsStill (written_task old new))
          λ done. pure-IsStill a

pub ensure-IsStill : (b : Bool) (e : Error) → IsStill (ensure b e)
ensure-IsStill true e = record { at = λ w. refl; outside = λ w. refl }
ensure-IsStill false e = record { at = λ w. refl; outside = λ w. refl }
