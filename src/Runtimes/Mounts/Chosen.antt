-- ===== src/Runtimes/Mounts/Chosen.antt =====
-- A mount is undone by the mounter that made it.
use tork.Prelude.{String, none, some, [], ◌∷◌, ◌≡◌, ◌≢◌, refl, arith, Dict, insert, eq_iff}
use tork.Task.{Mount}
use tork.Runtimes.Docker.{lookup, remove}
use tork.Runtimes.Plain.{lookup-insert_self}
use tork.Runtimes.Mounts.{Mounter, MultiMounter, multi_mount, multi_unmount}

remove-fresh : {V : Type 0} (k : String) (m : Dict V) → lookup k m ≡ none → remove k m ≡ m
unfolding lookup remove
remove-fresh k [] fresh = refl
remove-fresh k ((j, u) ∷ m) fresh = ground (arith, remove-fresh k m)

pub remove-insert :
    {V : Type 0} (k : String) (v : V) (m : Dict V) → lookup k m ≡ none → remove k (insert k v m) ≡ m
unfolding lookup remove insert
remove-insert k v [] fresh = ground (arith, eq_iff k k)
remove-insert k v ((j, u) ∷ m) fresh = ground (arith, remove-insert k v m)

-- A mount of a registered kind, under an identifier that is not in use, goes to the mounter of that
-- kind. Whatever that mounter makes of it but its identifier, the same mounter unmounts it, and the table
-- of mounts is then as it was.
pub multi_unmount-multi_mount :
    (mnt mnt' : Mount) (mr : Mounter) (m : MultiMounter)
    → mnt.id ≢ ""
    → lookup mnt.type m.mounters ≡ some mr
    → lookup mnt.id m.mapping ≡ none
    → mnt'.id ≡ mnt.id
    → ((multi_mount mnt m).0 ≡ mr.mount mnt)
      × ((multi_unmount mnt' (multi_mount mnt m).1).0 ≡ mr.unmount mnt')
      × ((multi_unmount mnt' (multi_mount mnt m).1).1 ≡ m)
unfolding multi_mount multi_unmount
multi_unmount-multi_mount mnt mnt' mr m named kind fresh same = ground (
  arith,
  eq_iff mnt.id "",
  lookup-insert_self mnt.id mr m.mapping,
  remove-insert mnt.id mr m.mapping,
)
