-- ===== src/Moves/Runs.antt =====
-- A coordinator that receives one message after another.
use mathlib.Core.Path.{subst}
use tork.Prelude.{ℕ, String, some, List, [], ◌∷◌, ◌≡◌, refl}
use tork.Job.{JobState, Job}
use tork.Exec.{World, Env, Message}
use tork.Datastore.{find_row, job_key}
use tork.Coordinator.{receive}
use tork.Moves.{JobSteps, here, then_on, MovedTo, Moves, Moves-refl, Moves-trans}
use tork.Moves.Messages.{IsFresh, receive-Moves}

-- Nothing leads out of COMPLETED.
completed_last : {s : JobState} → JobSteps JobState.completed s → s ≡ JobState.completed
completed_last here = refl
completed_last (then_on step rest) = elim step [ ]

module _ (env : Env) (fuel : ℕ) where
  -- The world after the messages, an error of a handler being logged.
  unfoldable pub receive_all : List Message → World → World
  receive_all [] w = w
  receive_all (m ∷ ms) w = receive_all ms (receive env fuel m w).1

  -- Each message that starts a job finds the row of the job PENDING, if it is there.
  abbrev pub AllFresh : List Message → World → Type 0
  AllFresh [] w = Unit
  AllFresh (m ∷ ms) w = IsFresh env m w × AllFresh ms (receive env fuel m w).1

  receive_all-Moves :
      (ms : List Message) (w : World) → AllFresh ms w → Moves w.db.jobs (receive_all ms w).db.jobs
  unfolding receive_all
  receive_all-Moves [] w fresh = Moves-refl w.db.jobs
  receive_all-Moves (m ∷ ms) w (first, rest) =
      let v = (receive env fuel m w).1 in
      Moves-trans w.db.jobs v.db.jobs (receive_all ms v).db.jobs (receive-Moves env fuel m w first)
        (receive_all-Moves ms v rest)

  -- After any messages to the coordinator, in any order, of which those that start a job find the row
  -- of the job PENDING: the row of every job is still there, and its state is one that moves of the
  -- machine lead to from the state before, whatever errors the handlers ended with.
  pub receive_all-JobSteps :
      (ms : List Message) (w : World) (k : String) (row : Job)
      → AllFresh ms w
      → find_row job_key k w.db.jobs ≡ some row
      → MovedTo k row (receive_all ms w).db.jobs
  receive_all-JobSteps ms w k row fresh found = receive_all-Moves ms w fresh k row found

  -- Such messages leave a job that is COMPLETED as COMPLETED.
  pub receive_all-completed :
      (ms : List Message) (w : World) (k : String) (row : Job)
      → AllFresh ms w
      → find_row job_key k w.db.jobs ≡ some row
      → row.state ≡ JobState.completed
      → (row' : Job) × (find_row job_key k (receive_all ms w).db.jobs ≡ some row')
        × (row'.state ≡ JobState.completed)
  receive_all-completed ms w k row fresh found done =
      let (row', found', steps) = receive_all-Moves ms w fresh k row found in
      (row', found', completed_last (subst (λ s. JobSteps s row'.state) done steps))
