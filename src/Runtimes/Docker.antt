-- ===== src/Runtimes/Docker.antt =====
-- runtime/docker/docker.go: a task in a container. The reporting of progress and the copying of the log
-- run beside it and are left out.
use Prim.Native.String.{◌++◌ as str_append}
use tork.Prelude.{
  ℕ, ◌+◌, String, Bool, true, false, not, ◌&&◌, ◌||◌, Option, none, some, List, [], ◌∷◌, ◌++◌, Dict,
  insert, str_eq, ltb, if◌then◌else◌,
}
use tork.Task.{TaskInfo, TaskLimits, Registry, Mount, Task, TaskNodes, tasks_of, nodes_of}
use tork.Eval
use tork.Input.Validate.{mount_type_volume, mount_type_bind}
use tork.Runtimes.Host.{
  Event, record_event, Resource, Host, Answers, R, pure, fail, ensure, lift, ◌>>=◌, ◌>>◌, finally,
  release, time_now, new_uuid, ask, acquire, mount_on, unmount, with_mounts,
}
pub mod Images
pub mod Run
pub mod Tidy
pub mod Containers

abbrev pub default_workdir : String
default_workdir = "/tork/workdir"

abbrev pub mount_type_tmpfs : String
mount_type_tmpfs = "tmpfs"

-- `fmt.Sprintf("%s=%s", name, value)` for each variable
unfoldable pub env_list : Dict String → List String
env_list [] = []
env_list ((name, value) ∷ rest) = str_append name (str_append "=" value) ∷ env_list rest

-- A mount of a container: its kind, its source and its target.
pub record ContainerMount : Type 0 where
  pub type : String
  pub source : String
  pub target : String

-- What stands in the way of a mount, if anything does.
unfoldable pub mount_error : Mount → Option String
mount_error m =
    if str_eq m.type mount_type_volume
    then (if str_eq m.target "" then some "volume target is required" else none)
    else if str_eq m.type mount_type_bind
    then (if str_eq m.target ""
        then some "bind target is required"
        else if str_eq m.source ""
        then some "bind source is required"
        else none)
    else if str_eq m.type mount_type_tmpfs
    then none
    else some (str_append "unknown mount type: " m.type)

unfoldable pub container_mounts : List Mount → Eval.Result String (List ContainerMount)
unfolding mount_error
container_mounts [] = Eval.Result.ok []
container_mounts (m ∷ ms) =
    let rest = container_mounts ms in
    elim (mount_error m) [
      | some e ↦ Eval.Result.err e
      | none ↦ elim rest [
        | Eval.Result.err e ↦ Eval.Result.err e
        | Eval.Result.ok cs ↦
            Eval.Result.ok (record { type = m.type; source = m.source; target = m.target } ∷ cs)
      ]
    ]

-- What the parsers of limits answer: `big.Rat` with the test for whole billionths, `units.RAMInBytes`,
-- and the options for processors of graphics.
pub record Parsers : Type 0 where
  pub cpus : String → Eval.Result String ℕ
  pub memory : String → Eval.Result String ℕ
  pub gpus : String → Eval.Result String (List String)

-- The container that is asked for.
pub record Spec : Type 0 where
  pub image : String
  pub env : List String
  pub cmd : List String
  pub entrypoint : List String
  pub working_dir : String
  pub mounts : List ContainerMount
  pub nano_cpus : ℕ
  pub memory : ℕ
  pub devices : List String
  pub privileged : Bool
  pub networks : List String

module _ (parsers : Parsers) where
  unfoldable pub parse_cpus : Option TaskLimits → Eval.Result String ℕ
  parse_cpus none = Eval.Result.ok 0
  parse_cpus (some l) = if str_eq l.cpus "" then Eval.Result.ok 0 else parsers.cpus l.cpus

  unfoldable pub parse_memory : Option TaskLimits → Eval.Result String ℕ
  parse_memory none = Eval.Result.ok 0
  parse_memory (some l) = if str_eq l.memory "" then Eval.Result.ok 0 else parsers.memory l.memory

  unfoldable pub parse_gpus : String → Eval.Result String (List String)
  parse_gpus gpus = if str_eq gpus "" then Eval.Result.ok [] else parsers.gpus gpus

unfoldable pub is_empty : {A : Type 0} → List A → Bool
is_empty [] = true
is_empty (x ∷ xs) = false

-- The task with a directory for its files, if it brings some and names none.
unfoldable pub with_workdir : Task → Task
unfolding is_empty
with_workdir t =
    if str_eq t.workdir "" && not (is_empty t.files)
    then record t { info = record t.info { workdir = default_workdir } }
    else t

unfoldable pub spec_of : Bool → Task → List ContainerMount → ℕ → ℕ → List String → Spec
unfolding env_list is_empty with_workdir
spec_of privileged t mounts cpus memory devices = record {
  image = t.image;
  env = env_list t.env ++ "TORK_OUTPUT=/tork/stdout" ∷ "TORK_PROGRESS=/tork/progress" ∷ [];
  cmd = if is_empty t.cmd then "/tork/entrypoint" ∷ [] else t.cmd;
  entrypoint =
      if is_empty t.entrypoint && not (str_eq t.run "") then "sh" ∷ "-c" ∷ [] else t.entrypoint;
  working_dir = (with_workdir t).workdir;
  mounts = mounts;
  nano_cpus = cpus;
  memory = memory;
  devices = devices;
  privileged = privileged;
  networks = t.networks;
}

unfoldable pub lookup : {V : Type 0} → String → Dict V → Option V
lookup key [] = none
lookup key ((k, v) ∷ rest) = if str_eq k key then some v else lookup key rest

unfoldable pub remove : {V : Type 0} → String → Dict V → Dict V
remove key [] = []
remove key ((k, v) ∷ rest) =
    let others = remove key rest in if str_eq k key then others else (k, v) ∷ others

-- `d.tasks.Set`
unfoldable pub set_running : String → String → R (Unit {0})
set_running id c h = (Eval.Result.ok tt, record h { running = insert id c h.running })

-- `stop`: the container of a task is removed, if there is one.
unfoldable pub stop : Task → R (Unit {0})
unfolding lookup remove release
stop t h = elim (lookup t.id h.running) [
  | none ↦ (Eval.Result.ok tt, h)
  | some c ↦ release (Resource.container c) (record h { running = remove t.id h.running })
]

-- What is held once a container was asked for.
unfoldable pub created : Eval.Result String String → R String
created (Eval.Result.ok c) h =
    (Eval.Result.ok c, record_event (Event.acquired (Resource.container c)) h)
created (Eval.Result.err e) h = (Eval.Result.err e, h)
