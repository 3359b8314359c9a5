-- ===== src/Runtimes/Docker/Run.antt =====
-- `doRun` and `Run` of runtime/docker/docker.go.
use tork.Prelude.{String, Bool, not, List, [], ◌∷◌, ◌++◌, Dict, str_eq, if◌then◌else◌}
use Prim.Native.String.{◌++◌ as str_append}
use tork.User.{Time}
use tork.Task.{Mount, Task}
use tork.Eval
use tork.Input.Validate.{mount_type_volume}
use tork.Runtimes.Host.{
  Event, Answers, R, pure, ensure, lift, ◌>>=◌, ◌>>◌, finally, record_event, new_uuid, ask,
  mount_on, unmount,
}
use tork.Runtimes.Sides.{sharing, run_mounted}
use tork.Runtimes.Docker.{
  Parsers, Spec, ContainerMount, container_mounts, parse_cpus, parse_memory, parse_gpus, spec_of,
  with_workdir, set_running, stop, created,
}
use tork.Runtimes.Docker.Images.{image_pull}

-- A runtime as it is set up. `create` is what the engine answers when it is asked for a container.
pub record DockerRuntime : Type 0 where
  pub answers : Answers
  pub parsers : Parsers
  pub create : List Event → Spec → Eval.Result String String
  pub privileged : Bool
  pub image_ttl : Time

pub file_names : Dict String → List String
file_names [] = []
file_names ((name, contents) ∷ rest) = name ∷ contents ∷ file_names rest

unfoldable pub torkdir_of : String → Mount
torkdir_of id = record { id = id; type = mount_type_volume; source = ""; target = "/tork" }

unfoldable pub volume_of : Mount → ContainerMount
volume_of m = record { type = mount_type_volume; source = m.source; target = m.target }

module _ (d : DockerRuntime) where
  -- `initTorkdir`
  unfoldable pub init_torkdir : String → Task → R String
  unfolding ask
  init_torkdir c t = ask d.answers "CopyToContainer" (
      c
      ∷ "/tork"
      ∷ "stdout"
      ∷ "progress"
      ∷ (if str_eq t.run "" then [] else "entrypoint" ∷ t.run ∷ []))

  -- `initWorkDir`
  unfoldable pub init_work_dir : String → Task → R String
  unfolding ask file_names
  init_work_dir c t = elim t.files [
    | [] ↦ pure ""
    | f ∷ fs ↦ ask d.answers "CopyToContainer" (c ∷ t.workdir ∷ file_names (f ∷ fs))
  ]

  -- The last lines of the log go into the error.
  unfoldable pub exit_error : String → String → R Task
  unfolding ask
  exit_error c code h =
      let (out, h') = ask d.answers "ContainerLogs" (c ∷ "10" ∷ []) h in
      elim out [
        | Eval.Result.ok text ↦
            (Eval.Result.err (str_append "exit code " (str_append code (str_append ": " text))), h')
        | Eval.Result.err e ↦ (Eval.Result.err (str_append "exit code " code), h')
      ]

  -- From the start of a container to its output.
  unfoldable pub run_container : Task → String → R Task
  unfolding init_torkdir init_work_dir exit_error ask
  run_container t c = do
    copied ← init_torkdir c t
    filled ← init_work_dir c t
    started ← ask d.answers "ContainerStart" (c ∷ [])
    logs ← ask d.answers "ContainerLogs" (c ∷ [])
    code ← ask d.answers "ContainerWait" (c ∷ [])
    if str_eq code "0"
        then (do
          out ← ask d.answers "CopyFromContainer" (c ∷ "/tork/stdout" ∷ [])
          pure (record t { info = record t.info { result = out } }))
        else exit_error c code

  -- `ContainerCreate`
  unfoldable pub create_container : Spec → R String
  unfolding created
  create_container spec h =
      created (d.create h.trace spec)
        (record_event (Event.asked "ContainerCreate" (spec.image ∷ [])) h)

  -- A container for the task, which is removed at the end.
  unfoldable pub with_container : Task → Spec → R Task
  unfolding create_container run_container set_running stop finally
  with_container t spec = do
    c ← create_container spec
    set_running t.id c
    finally (run_container t c) (stop t)

  unfoldable pub limited : Task → List ContainerMount → R Spec
  limited t mounts = do
    cpus ← lift (parse_cpus d.parsers t.limits)
    memory ← lift (parse_memory d.parsers t.limits)
    devices ← lift (parse_gpus d.parsers t.gpus)
    pure (spec_of d.privileged t mounts cpus memory devices)

  -- With the directory of the run mounted
  unfoldable pub in_torkdir : Task → List ContainerMount → Mount → R Task
  unfolding volume_of limited with_container
  in_torkdir t mounts torkdir = do
    spec ← limited t (mounts ++ volume_of torkdir ∷ [])
    with_container (with_workdir t) spec

  -- `doRun`
  unfoldable pub do_run : Task → R Task
  unfolding torkdir_of in_torkdir image_pull mount_on unmount finally
  do_run t = do
    ensure (not (str_eq t.id "")) "task id is required"
    image_pull d.answers d.image_ttl t.image
    mounts ← lift (container_mounts t.mounts)
    id ← new_uuid d.answers
    torkdir ← mount_on d.answers (torkdir_of id)
    finally (in_torkdir t mounts torkdir) (unmount torkdir)

  -- `Run`
  unfoldable pub run : Task → R Task
  unfolding do_run run_mounted
  run t = run_mounted d.answers sharing do_run t
