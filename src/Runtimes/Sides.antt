-- ===== src/Runtimes/Sides.antt =====
-- What the runtimes of runtime/docker, runtime/podman and runtime/shell have in common: the tasks before
-- a task, the task, and the tasks after it, one after the other.
use tork.Prelude.{String, List, [], ◌∷◌}
use tork.Task.{Task, tasks_of, nodes_of}
use tork.Runtimes.Host.{Answers, R, pure, ◌>>=◌, new_uuid, with_mounts}

-- A task before or after another one shares its mounts, networks and limits.
unfoldable pub sharing : Task → String → Task → Task
sharing t id side = record side {
  info = record side.info { id = id; mounts = t.mounts; networks = t.networks; limits = t.limits };
}

-- It gets an identifier of its own, and no more.
unfoldable pub alone : Task → String → Task → Task
alone t id side = record side { info = record side.info { id = id } }

module _ (answers : Answers) (prepare : Task → String → Task → Task) (do_run : Task → R Task) where
  -- The tasks are changed in place, until one fails.
  unfoldable pub run_sides : Task → List Task → R (List Task)
  run_sides t [] = pure []
  run_sides t (side ∷ sides) = do
    id ← new_uuid answers
    side' ← do_run (prepare t id side)
    rest ← run_sides t sides
    pure (side' ∷ rest)

  unfoldable pub run_all : Task → R Task
  unfolding run_sides
  run_all t = do
    pre ← run_sides t (tasks_of t.pre)
    t' ← do_run (record t { pre = nodes_of pre })
    post ← run_sides t' (tasks_of t'.post)
    pure (record t' { post = nodes_of post })

  -- With the mounts of the task around it.
  unfoldable pub run_mounted : Task → R Task
  unfolding run_all with_mounts
  run_mounted t =
      with_mounts answers [] t.mounts
        λ ms. run_all (record t { info = record t.info { mounts = ms } })
