-- ===== src/Moves.antt =====
-- The states of jobs as a machine, which the handlers of internal/coordinator/handlers refine: what a
-- handler may do to the row of a job, whatever the message.
pub mod Rows
pub mod UnderWay
pub mod Jobs
pub mod Actions
pub mod Still
pub mod Scheduled
pub mod Completed
pub mod Starts
pub mod Messages
pub mod Runs
use tork.Prelude.{
  String, Bool, true, false, Option, none, some, List, [], ◌∷◌, ◌++◌, ◌≡◌, refl, sym, ap, ◌∙◌,
  arith, str_eq, eq_iff, if◌then◌else◌,
}
use tork.Job.{JobState, Job}
use tork.Exec.{World, M, Result, Error, ok, err, proceed, settle}
use tork.Eval
use tork.Datastore.{find_row, job_key}

-- A move of a job.
pub data JobStep : JobState → JobState → Type 0 where
  start : JobStep JobState.pending JobState.scheduled
  run : JobStep JobState.scheduled JobState.running
  complete_scheduled : JobStep JobState.scheduled JobState.completed
  complete_running : JobStep JobState.running JobState.completed
  fail_scheduled : JobStep JobState.scheduled JobState.failed
  fail_running : JobStep JobState.running JobState.failed
  cancel_scheduled : JobStep JobState.scheduled JobState.cancelled
  cancel_running : JobStep JobState.running JobState.cancelled
  restart_failed : JobStep JobState.failed JobState.running
  restart_cancelled : JobStep JobState.cancelled JobState.running

-- Any number of moves.
pub data JobSteps : JobState → JobState → Type 0 where
  here : {s : JobState} → JobSteps s s
  then_on : {s u v : JobState} → JobStep s u → JobSteps u v → JobSteps s v

pub one : {s u : JobState} → JobStep s u → JobSteps s u
one step = then_on step here

pub steps_trans : {s u v : JobState} → JobSteps s u → JobSteps u v → JobSteps s v
steps_trans here on = on
steps_trans (then_on step rest) on = then_on step (steps_trans rest on)

-- Where a row of the one table is in the other, moved on.
abbrev pub MovedTo : String → Job → List Job → Type 0
MovedTo k j js = (j' : Job) × (find_row job_key k js ≡ some j') × JobSteps j.state j'.state

-- Every row is still there, and moved on.
abbrev pub Moves : List Job → List Job → Type 0
Moves js js' = (k : String) (j : Job) → find_row job_key k js ≡ some j → MovedTo k j js'

pub Moves-refl : (js : List Job) → Moves js js
Moves-refl js k j found = (j, found, here)

pub Moves-trans : (js ks ls : List Job) → Moves js ks → Moves ks ls → Moves js ls
Moves-trans js ks ls first second k j found =
    let (j', found', steps) = first k j found in
    let (j'', found'', steps') = second k j' found' in (j'', found'', steps_trans steps steps')

-- The same table, however it is written.
pub Moves-same : (js ks : List Job) → ks ≡ js → Moves js ks
Moves-same js ks same k j found = (j, ap (λ rows. find_row job_key k rows) same ∙ found, here)

-- From a table through one that is the same as the next.
pub Moves-then_same : (js ks ls : List Job) → Moves js ks → ls ≡ ks → Moves js ls
Moves-then_same js ks ls moved same = Moves-trans js ks ls moved (Moves-same ks ls same)

module _ (js : List Job) where
  -- What follows an action, if it succeeds.
  pub proceed-Moves :
      {A B : Type 0}
      → (r : Result A) (v : World) (f : A → M B) → Moves js v.db.jobs
      → ((a : A) → Moves js (f a v).1.db.jobs)
      → Moves js (proceed r f v).1.db.jobs
  proceed-Moves (Eval.Result.ok a) v f moved next = next a
  proceed-Moves (Eval.Result.err e) v f moved next = moved

  pub if-Moves :
      {B : Type 0}
      → (b : Bool) (m n : M B) (v : World) → Moves js (m v).1.db.jobs
      → Moves js (n v).1.db.jobs
      → Moves js ((if b then m else n) v).1.db.jobs
  if-Moves true m n v yes_ no_ = yes_
  if-Moves false m n v yes_ no_ = no_

  -- The end of a transaction.
  pub settle-Moves :
      {A : Type 0}
      → (r : Result A) (v : World) → Moves js v.db.jobs
      → Moves js v.committed.jobs
      → Moves js (settle r v).1.db.jobs
  settle-Moves (Eval.Result.ok a) v moved undone = moved
  settle-Moves (Eval.Result.err e) v moved undone = undone
