-- ===== src/Runtimes/Shell.antt =====
-- runtime/shell/shell.go: a task as a process of the host. The reporting of progress and the copying of
-- what the process prints run beside it and are left out, and so is the end of a run that is cancelled.
use Prim.Native.String.{◌++◌ as str_append}
use tork.Prelude.{
  ℕ, String, Bool, true, false, not, ◌&&◌, ◌||◌, Option, none, some, List, [], ◌∷◌, ◌++◌, Dict,
  insert, str_eq, if◌then◌else◌,
}
use tork.Task.{TaskInfo, TaskLimits, Registry, Mount, Task}
use tork.Eval
use tork.Runtimes.Host.{
  Resource, Event, Host, Answers, R, pure, fail, ensure, ◌>>=◌, ◌>>◌, finally, release, ask,
  acquire,
}
use tork.Runtimes.Sides.{alone, run_all}
use tork.Runtimes.Docker.{is_empty, set_running, remove}
pub mod Tidy
pub mod Environ

abbrev pub env_var_prefix : String
env_var_prefix = "REEXEC_"

abbrev pub default_uid : String
default_uid = "-"

abbrev pub default_gid : String
default_gid = "-"

-- `getenv` is `os.Getenv`.
pub record ShellRuntime : Type 0 where
  pub answers : Answers
  pub shell : List String
  pub uid : String
  pub gid : String
  pub getenv : String → String

or_text : String → String → String
or_text s d = if str_eq s "" then d else s

-- NewShellRuntime
unfoldable pub new_shell_runtime :
    Answers → (String → String) → List String → String → String → ShellRuntime
unfolding is_empty or_text
new_shell_runtime answers getenv cmd uid gid = record {
  answers = answers;
  shell = if is_empty cmd then "bash" ∷ "-c" ∷ [] else cmd;
  uid = or_text uid default_uid;
  gid = or_text gid default_gid;
  getenv = getenv;
}

unfoldable pub prefixed_env : Dict String → List String
prefixed_env [] = []
prefixed_env ((name, value) ∷ rest) =
    str_append env_var_prefix (str_append name (str_append "=" value)) ∷ prefixed_env rest

has_limits : Option TaskLimits → Bool
has_limits none = false
has_limits (some l) = not (str_eq l.cpus "") || not (str_eq l.memory "")

has_registry : Option Registry → Bool
has_registry none = false
has_registry (some r) = true

-- What a task asks for that a process of the host cannot have.
unfoldable pub unsupported : Task → Option String
unfolding is_empty has_limits has_registry
unsupported t =
    if str_eq t.id ""
    then some "task id is required"
    else if not (is_empty t.mounts)
    then some "mounts are not supported on shell runtime"
    else if not (is_empty t.entrypoint)
    then some "entrypoint is not supported on shell runtime"
    else if not (str_eq t.image "")
    then some "image is not supported on shell runtime"
    else if has_limits t.limits
    then some "limits are not supported on shell runtime"
    else if not (is_empty t.networks)
    then some "networks are not supported on shell runtime"
    else if has_registry t.registry
    then some "registry is not supported on shell runtime"
    else if not (is_empty t.cmd)
    then some "cmd is not supported on shell runtime"
    else none

abbrev refuse : {A : Type 0} → Option String → R A → R A
refuse none next = next
refuse (some e) next = fail e

-- `r.cmds.Delete`
unfoldable pub forget : String → R (Unit {0})
unfolding remove
forget id h = (Eval.Result.ok tt, record h { running = remove id h.running })

module _ (s : ShellRuntime) where
  unfoldable pub write_files : String → Dict String → R (Unit {0})
  unfolding ask
  write_files dir [] = pure tt
  write_files dir ((name, contents) ∷ rest) = do
    written ← ask s.answers "WriteFile" (str_append dir (str_append "/" name) ∷ contents ∷ [])
    write_files dir rest

  -- The variables of the process that starts the task.
  unfoldable pub process_env : String → Task → List String
  unfolding prefixed_env
  process_env dir t =
      prefixed_env t.env
      ++ str_append env_var_prefix (str_append "TORK_OUTPUT=" (str_append dir "/stdout"))
        ∷ str_append env_var_prefix (str_append "TORK_PROGRESS=" (str_append dir "/progress"))
        ∷ str_append "WORKDIR=" dir
        ∷ str_append "PATH=" (s.getenv "PATH")
        ∷ str_append "HOME=" (s.getenv "HOME")
        ∷ []

  unfoldable pub command_of : String → List String
  command_of dir =
      "shell" ∷ "-uid" ∷ s.uid ∷ "-gid" ∷ s.gid ∷ (s.shell ++ str_append dir "/entrypoint" ∷ [])

  unfoldable pub in_dir : Task → String → R Task
  unfolding write_files process_env command_of set_running ask
  in_dir t dir = do
    output ← ask s.answers "WriteFile" (str_append dir "/stdout" ∷ "" ∷ [])
    progress ← ask s.answers "WriteFile" (str_append dir "/progress" ∷ "" ∷ [])
    write_files dir t.files
    script ← ask s.answers "WriteFile" (str_append dir "/entrypoint" ∷ t.run ∷ [])
    pid ← ask s.answers "Start" (command_of dir ++ process_env dir t)
    set_running t.id pid
    ended ← ask s.answers "Wait" (pid ∷ [])
    out ← ask s.answers "ReadFile" (str_append dir "/stdout" ∷ [])
    pure (record t { info = record t.info { result = out } })

  -- In a new directory, which is removed at the end.
  unfoldable pub with_dir : Task → R Task
  unfolding in_dir acquire finally release
  with_dir t = do
    dir ← acquire s.answers Resource.directory "MkdirTemp" []
    finally (in_dir t dir) (release (Resource.directory dir))

  -- `doRun`
  unfoldable pub do_run : Task → R Task
  unfolding with_dir forget finally
  do_run t = finally (with_dir t) (forget t.id)

  -- `Run`
  unfoldable pub run : Task → R Task
  unfolding unsupported do_run run_all
  run t = refuse (unsupported t) (run_all s.answers alone do_run t)
