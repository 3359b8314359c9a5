-- ===== src/Runtimes/Podman.antt =====
-- runtime/podman/podman.go: a task in a container, by the commands of podman. The reporting of progress
-- runs beside it and is left out.
use Prim.Native.String.{◌++◌ as str_append}
use tork.Prelude.{
  ℕ, String, Bool, true, false, not, ◌&&◌, ◌||◌, Option, none, some, List, [], ◌∷◌, ◌++◌, Dict,
  insert, str_eq, if◌then◌else◌,
}
use tork.User.{Time}
use tork.Task.{TaskInfo, Mount, Task}
use tork.Eval
use tork.Input.Validate.{mount_type_volume, mount_type_bind}
use tork.Runtimes.Host.{
  Resource, Event, Host, Answers, R, pure, fail, ensure, lift, ◌>>=◌, ◌>>◌, finally, release,
  record_event, ask, acquire,
}
use tork.Runtimes.Sides.{sharing, run_mounted}
use tork.Runtimes.Docker.{env_list, with_workdir, set_running, stop, created}
use tork.Runtimes.Docker.Images.{has_image}
pub mod Tidy

-- `trim` is `strings.TrimSpace`.
pub record PodmanRuntime : Type 0 where
  pub answers : Answers
  pub trim : String → String
  pub privileged : Bool

-- `strings.Join(words, " ")`
unfoldable pub join : List String → String
join [] = ""
join (w ∷ []) = w
join (w ∷ v ∷ ws) = str_append w (str_append " " (join (v ∷ ws)))

-- A flag before each word.
unfoldable pub flagged : String → List String → List String
flagged flag [] = []
flagged flag (w ∷ ws) = flag ∷ w ∷ flagged flag ws

-- Volumes and binds, as `source:target`.
unfoldable pub mount_args : List Mount → Eval.Result String (List String)
mount_args [] = Eval.Result.ok []
mount_args (m ∷ ms) =
    let rest = mount_args ms in
    if str_eq m.type mount_type_volume || str_eq m.type mount_type_bind
    then elim rest [
      | Eval.Result.ok args ↦
          Eval.Result.ok ("-v" ∷ str_append m.source (str_append ":" m.target) ∷ args)
      | Eval.Result.err e ↦ Eval.Result.err e
    ]
    else Eval.Result.err (str_append "unknown mount type: " m.type)

-- The task with `sh -c` for an entry point, if it has none.
unfoldable pub with_entrypoint : Task → Task
with_entrypoint t = elim t.entrypoint [
  | [] ↦ record t { info = record t.info { entrypoint = "sh" ∷ "-c" ∷ [] } }
  | e ∷ es ↦ t
]

first_word : List String → String
first_word [] = ""
first_word (w ∷ ws) = w

other_words : List String → List String
other_words [] = []
other_words (w ∷ ws) = ws

-- The arguments of `podman create`, for a task with an entry point and a directory for its files.
unfoldable pub create_args : Bool → String → Task → List String → List String
unfolding env_list flagged first_word other_words
create_args privileged dir t mounts =
    "-v"
    ∷ str_append dir ":/tork"
    ∷ "--entrypoint"
    ∷ first_word t.entrypoint
    ∷ (flagged "-e"
          (env_list t.env ++ "TORK_OUTPUT=/tork/output" ∷ "TORK_PROGRESS=/tork/progress" ∷ [])
        ++ (flagged "--network" t.networks
            ++ (mounts
                ++ ((if str_eq t.workdir "" then [] else "-w" ∷ t.workdir ∷ [])
                    ++ ((if privileged then "--privileged" ∷ [] else [])
                        ++ (t.image ∷ (other_words t.entrypoint ++ "/tork/entrypoint.sh" ∷ [])))))))

module _ (p : PodmanRuntime) where
  -- The files of the task, each into the directory for them.
  unfoldable pub write_files : String → Dict String → R (Unit {0})
  unfolding ask
  write_files dir [] = pure tt
  write_files dir ((name, contents) ∷ rest) = do
    made ← ask p.answers "MkdirAll" (str_append dir "/workdir" ∷ [])
    written ← ask p.answers "WriteFile" (str_append dir "/workdir" ∷ name ∷ contents ∷ [])
    write_files dir rest

  unfoldable pub set_image : String → R (Unit {0})
  set_image name h = (Eval.Result.ok tt, record h { images = insert name 0 h.images })

  -- `doPullRequest`: an image that `podman inspect` does not know is pulled.
  unfoldable pub pull_request : String → R String
  unfolding ask
  pull_request name h =
      let (found, h') = ask p.answers "podman inspect" (name ∷ []) h in
      elim found [
        | Eval.Result.ok text ↦ (Eval.Result.ok "", h')
        | Eval.Result.err e ↦ ask p.answers "podman pull" (name ∷ []) h'
      ]

  -- `imagePull`. An image that was pulled is not asked for again; no time is kept.
  unfoldable pub image_pull : String → R (Unit {0})
  unfolding has_image set_image pull_request
  image_pull name h =
      (if has_image name h.images then pure tt else (do pulled ← pull_request name; set_image name))
        h

  -- From the start of a container to the output of the task.
  unfoldable pub run_container : String → Task → String → R Task
  unfolding ask
  run_container dir t c = do
    started ← ask p.answers "podman start" (c ∷ [])
    logs ← ask p.answers "podman logs" ("--follow" ∷ c ∷ [])
    code ← ask p.answers "podman inspect" ("--format" ∷ "{{.State.ExitCode}}" ∷ c ∷ [])
    ensure (str_eq (p.trim code) "0") (str_append "container exited with code " (p.trim code))
    out ← ask p.answers "ReadFile" (str_append dir "/output" ∷ [])
    pure (record t { info = record t.info { result = out } })

  -- An answer of `podman create` without an identifier is an error.
  unfoldable pub container_id : Eval.Result String String → Eval.Result String String
  container_id (Eval.Result.err e) = Eval.Result.err e
  container_id (Eval.Result.ok text) =
      if str_eq (p.trim text) ""
      then Eval.Result.err "failed to retrieve container ID"
      else Eval.Result.ok (p.trim text)

  unfoldable pub create_container : List String → R String
  unfolding created container_id
  create_container args h =
      created (container_id (p.answers.answer h.trace "podman create" args))
        (record_event (Event.asked "podman create" args) h)

  -- A container for the task, which is removed at the end.
  unfoldable pub with_container : String → Task → List String → R Task
  unfolding create_container run_container set_running stop finally
  with_container dir t args = do
    c ← create_container args
    set_running t.id c
    finally (run_container dir t c) (stop t)

  -- What goes into the directory before the image is asked for.
  unfoldable pub init_dir : String → Task → R String
  unfolding ask join
  init_dir dir t = do
    output ← ask p.answers "Create" (str_append dir "/output" ∷ [])
    open_ ← ask p.answers "Chmod" (str_append dir "/output" ∷ [])
    progress ← ask p.answers "Create" (str_append dir "/progress" ∷ [])
    open' ← ask p.answers "Chmod" (str_append dir "/progress" ∷ [])
    ask p.answers "WriteFile"
        (str_append dir "/entrypoint.sh" ∷ (if str_eq t.run "" then join t.cmd else t.run) ∷ [])

  unfoldable pub in_dir : Task → String → R Task
  unfolding init_dir image_pull with_entrypoint with_workdir mount_args write_files with_container
      create_args
  in_dir t dir = do
    ready ← init_dir dir t
    image_pull t.image
    mounts ← lift (mount_args t.mounts)
    let t' = with_workdir (with_entrypoint t)
    write_files dir t.files
    with_container dir t' (create_args p.privileged dir t' mounts)

  -- `doRun`. The answer to `MkdirAll` stands for the path of the directory that it makes.
  unfoldable pub do_run : Task → R Task
  unfolding acquire in_dir finally release
  do_run t = do
    dir ← acquire p.answers Resource.directory "MkdirAll" (t.id ∷ [])
    finally (in_dir t dir) (release (Resource.directory dir))

  -- `Run`
  unfoldable pub run : Task → R Task
  unfolding do_run run_mounted
  run t = do
    ensure (not (str_eq t.id "")) "task id is required"
    ensure (not (str_eq t.image "")) "task image is required"
    run_mounted p.answers sharing do_run t
