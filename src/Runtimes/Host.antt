-- ===== src/Runtimes/Host.antt =====
-- What a runtime acts on: the container engine and the operating system of its host, as the sequence of
-- what it asked of them, and the tables that it keeps.
use tork.Prelude.{ℕ, ◌+◌, String, Bool, true, false, List, [], ◌∷◌, ◌++◌, Dict}
use tork.User.{Time}
use tork.Task.{Mount}
use tork.Eval

-- What has to be given back: a container, a mount and a directory, each by its identifier.
pub data Resource : Type 0 where
  container mount directory : String → Resource

-- A resource that was obtained, one that was given back, whatever came of it, and any other call with
-- its arguments.
pub data Event : Type 0 where
  acquired released : Resource → Event
  asked : String → List String → Event

-- `running` leads from a task to its container, `images` from an image to its last use. `readings` and
-- `drawn` count the uses of the clock and of the identifiers.
pub record Host : Type 0 where
  pub trace : List Event
  pub running : Dict String
  pub images : Dict Time
  pub readings : ℕ
  pub drawn : ℕ

-- What the host answers, which may depend on all that was asked before. An answer is a text, or an error.
-- `mounted` is the mount as its mounter leaves it.
pub record Answers : Type 0 where
  pub now : ℕ → Time
  pub uuid : ℕ → String
  pub answer : List Event → String → List String → Eval.Result String String
  pub listed : List Event → String → Eval.Result String (List String)
  pub mounted : List Event → Mount → Eval.Result String Mount

abbrev pub R : Type 0 → Type 0
R A = Host → Eval.Result String A × Host

abbrev pub pure : {A : Type 0} → A → R A
pure a h = (Eval.Result.ok a, h)

abbrev pub fail : {A : Type 0} → String → R A
fail e h = (Eval.Result.err e, h)

abbrev pub proceed : {A B : Type 0} → Eval.Result String A → (A → R B) → R B
proceed (Eval.Result.ok a) f h = f a h
proceed (Eval.Result.err e) f h = (Eval.Result.err e, h)

infixl 5 ◌>>=◌ ◌>>◌
abbrev pub ◌>>=◌ : {A B : Type 0} (action : R A) (next : A → R B) → R B
◌>>=◌ action next h = let (r, h') = action h in proceed r next h'

abbrev pub ◌>>◌ : {B : Type 0} → R (Unit {0}) → R B → R B
m >> n = m >>= λ _. n

-- `if !test { return err }`
abbrev pub ensure : Bool → String → R (Unit {0})
ensure true e = pure tt
ensure false e = fail e

abbrev pub lift : {A : Type 0} → Eval.Result String A → R A
lift r h = (r, h)

-- `defer`: whatever comes of the body, the cleanup runs after it, and its own errors are logged.
unfoldable pub finally : {A : Type 0} → R A → R (Unit {0}) → R A
finally body cleanup h = let (r, h') = body h in let (done, h'') = cleanup h' in (r, h'')

abbrev pub record_event : Event → Host → Host
record_event e h = record h { trace = h.trace ++ e ∷ [] }

unfoldable pub release : Resource → R (Unit {0})
release r h = (Eval.Result.ok tt, record_event (Event.released r) h)

-- `Unmount` of a mounter
unfoldable pub unmount : Mount → R (Unit {0})
unfolding release
unmount m = release (Resource.mount m.id)

module _ (answers : Answers) where
  abbrev pub time_now : R Time
  time_now h = (Eval.Result.ok (answers.now h.readings), record h { readings = h.readings + 1 })

  abbrev pub new_uuid : R String
  new_uuid h = (Eval.Result.ok (answers.uuid h.drawn), record h { drawn = h.drawn + 1 })

  -- A call, which is recorded whatever the answer.
  unfoldable pub ask : String → List String → R String
  ask name args h = (answers.answer h.trace name args, record_event (Event.asked name args) h)

  -- A call that obtains a resource, unless it fails.
  unfoldable pub acquire : (String → Resource) → String → List String → R String
  unfolding ask
  acquire kind name args = do
    id ← ask name args
    λ h. (Eval.Result.ok id, record_event (Event.acquired (kind id)) h)

  unfoldable pub mount_done : Eval.Result String Mount → R Mount
  mount_done (Eval.Result.ok m) h =
      (Eval.Result.ok m, record_event (Event.acquired (Resource.mount m.id)) h)
  mount_done (Eval.Result.err e) h = (Eval.Result.err e, h)

  -- `Mount` of a mounter
  unfoldable pub mount_on : Mount → R Mount
  unfolding mount_done
  mount_on m h = mount_done (answers.mounted h.trace m) h

  -- `t.Mounts`, each under a new identifier, around what follows.
  unfoldable pub with_mounts : {A : Type 0} → List Mount → List Mount → (List Mount → R A) → R A
  unfolding finally mount_on unmount
  with_mounts done [] body = body done
  with_mounts done (m ∷ ms) body = do
    id ← new_uuid
    m' ← mount_on (record m { id = id })
    finally (with_mounts (done ++ m' ∷ []) ms body) (unmount m')
