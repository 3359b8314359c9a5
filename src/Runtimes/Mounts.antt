-- ===== src/Runtimes/Mounts.antt =====
-- The mounters of the runtimes: runtime/multi.go, which chooses one by the kind of a mount,
-- runtime/docker/bind.go, runtime/docker/volume.go and runtime/podman/volume.go.
use Prim.Native.String.{◌++◌ as str_append}
use tork.Prelude.{
  String, Bool, true, false, not, ◌||◌, Option, none, some, List, [], ◌∷◌, Dict, insert, str_eq,
  if◌then◌else◌,
}
use tork.Task.{Mount}
use tork.Eval
use tork.Runtimes.Host.{
  Event, Host, record_event, Answers, R, pure, fail, ensure, ◌>>=◌, ◌>>◌, new_uuid, ask,
}
use tork.Runtimes.Docker.{lookup, remove, is_empty}
pub mod Chosen
pub mod Allowed

-- `Mount` gives the mount as it leaves it.
pub record Mounter : Type 0 where
  pub mount : Mount → R Mount
  pub unmount : Mount → R (Unit {0})

-- `mapping` leads from the identifier of a mount to the mounter that made it.
pub record MultiMounter : Type 0 where
  pub mounters : Dict Mounter
  pub mapping : Dict Mounter

unfoldable pub new_multi_mounter : MultiMounter
new_multi_mounter = record { mounters = []; mapping = [] }

-- RegisterMounter; `none` is the panic.
unfoldable pub register_mounter : String → Mounter → MultiMounter → Option MultiMounter
unfolding lookup
register_mounter type mr m = elim (lookup type m.mounters) [
  | some old ↦ none
  | none ↦ some (record m { mounters = insert type mr m.mounters })
]

-- `Mount`, with the mounter after it
unfoldable pub multi_mount : Mount → MultiMounter → R Mount × MultiMounter
unfolding lookup
multi_mount mnt m =
    if str_eq mnt.id ""
    then (fail "must provide a mount ID", m)
    else elim (lookup mnt.type m.mounters) [
      | none ↦ (fail (str_append "unknown mount type: " mnt.type), m)
      | some mr ↦ (mr.mount mnt, record m { mapping = insert mnt.id mr m.mapping })
    ]

unfoldable pub multi_unmount : Mount → MultiMounter → R (Unit {0}) × MultiMounter
unfolding lookup remove
multi_unmount mnt m =
    if str_eq mnt.id ""
    then (fail "must provide a mount ID", m)
    else elim (lookup mnt.id m.mapping) [
      | none ↦ (fail "unmounter not found", m)
      | some mr ↦ (mr.unmount mnt, record m { mapping = remove mnt.id m.mapping })
    ]

pub record BindConfig : Type 0 where
  pub allowed : Bool
  pub sources : List String

-- `mounts` holds the sources that are known to be there.
pub record BindMounter : Type 0 where
  pub cfg : BindConfig
  pub mounts : Dict String

unfoldable pub new_bind_mounter : BindConfig → BindMounter
new_bind_mounter cfg = record { cfg = cfg; mounts = [] }

-- `equal_fold` is `strings.EqualFold`.
module _ (equal_fold : String → String → Bool) where
  unfoldable pub any_source : String → List String → Bool
  any_source src [] = false
  any_source src (allow ∷ rest) = equal_fold allow src || any_source src rest

  unfoldable pub is_source_allowed : BindConfig → String → Bool
  unfolding is_empty any_source
  is_source_allowed cfg src = is_empty cfg.sources || any_source src cfg.sources

  module _ (answers : Answers) (is_not_exist : String → Bool) where
    -- The directory is made if it is not there.
    unfoldable pub find_dir : String → R String
    unfolding ask
    find_dir src h =
        let (found, h') = ask answers "Stat" (src ∷ []) h in
        elim found [
          | Eval.Result.ok info ↦ (Eval.Result.ok "", h')
          | Eval.Result.err e ↦
              (if is_not_exist e then ask answers "MkdirAll" (src ∷ []) else fail e) h'
        ]

    unfoldable pub add_source : String → BindMounter → R BindMounter
    unfolding find_dir
    add_source src b = do made ← find_dir src; pure (record b { mounts = insert src src b.mounts })

    unfoldable pub known_or_added : Option String → String → BindMounter → R BindMounter
    unfolding add_source
    known_or_added (some known) src b = pure b
    known_or_added none src b = add_source src b

    -- `Mount` of a BindMounter, with the mounter after it. `Unmount` does nothing.
    unfoldable pub bind_mount : Mount → BindMounter → R BindMounter
    unfolding is_source_allowed lookup known_or_added
    bind_mount mnt b = do
      ensure b.cfg.allowed "bind mounts are not allowed"
      ensure (is_source_allowed b.cfg mnt.source)
          (str_append "src bind mount is not allowed: " mnt.source)
      known_or_added (lookup mnt.source b.mounts) mnt.source b

module _ (answers : Answers) where
  -- `Mount` of runtime/docker/volume.go
  unfoldable pub volume_mount : Mount → R Mount
  unfolding ask
  volume_mount mnt = do
    name ← new_uuid answers
    made ← ask answers "VolumeCreate" (name ∷ [])
    pure (record mnt { source = name })

  -- `VolumeList`, of the volumes with this name
  unfoldable pub volumes : String → R (List String)
  volumes name h =
      (answers.listed h.trace name, record_event (Event.asked "VolumeList" (name ∷ [])) h)

  unfoldable pub volume_unmount : Mount → R (Unit {0})
  unfolding ask volumes is_empty
  volume_unmount mnt = do
    found ← volumes mnt.source
    ensure (not (is_empty found)) (str_append "unknown volume: " mnt.source)
    removed ← ask answers "VolumeRemove" (mnt.source ∷ [])
    pure tt

  -- `Mount` of runtime/podman/volume.go
  unfoldable pub dir_mount : Mount → R Mount
  unfolding ask
  dir_mount mnt = do
    vol ← ask answers "MkdirTemp" ("tork-volume-*" ∷ [])
    open_ ← ask answers "Chmod" (vol ∷ [])
    pure (record mnt { source = vol })

  unfoldable pub dir_unmount : Mount → R (Unit {0})
  unfolding ask
  dir_unmount mnt = do removed ← ask answers "RemoveAll" (mnt.source ∷ []); pure tt
