-- ===== src/Input/Accepted.antt =====
-- What the checks of a task let through.
use tork.Prelude.{none, [], ◌≡◌}
use tork.Input.{
  TaskFields, ParallelInput, EachInput, SubJobInput, no_parallel_input, parallel_input,
  no_each_input, each_input, no_subjob_input, subjob_input,
}

-- Which of the three compositions a task is.
pub data IsOneKind : ParallelInput → EachInput → SubJobInput → Type 0 where
  regular_kind : IsOneKind no_parallel_input no_each_input no_subjob_input
  parallel_kind : {ts : _} → IsOneKind (parallel_input ts) no_each_input no_subjob_input
  each_kind : {e t : _} → IsOneKind no_parallel_input (each_input e t) no_subjob_input
  subjob_kind : {s ts : _} → IsOneKind no_parallel_input no_each_input (subjob_input s ts)

-- A task has none of what only a task that runs itself may have.
pub record IsPlain (t : TaskFields) : Type 0 where
  pub image : t.image ≡ ""
  pub cmd : t.cmd ≡ []
  pub entrypoint : t.entrypoint ≡ []
  pub run : t.run ≡ ""
  pub env : t.env ≡ []
  pub queue : t.queue ≡ ""
  pub pre : t.pre ≡ []
  pub post : t.post ≡ []
  pub mounts : t.mounts ≡ []
  pub retry : t.retry ≡ none
  pub limits : t.limits ≡ none
  pub timeout : t.timeout ≡ ""

-- A task with no tasks inside.
pub record IsRegular (p : ParallelInput) (e : EachInput) (s : SubJobInput) : Type 0 where
  pub parallel : p ≡ no_parallel_input
  pub each : e ≡ no_each_input
  pub subjob : s ≡ no_subjob_input
