-- ===== src/Moves/Actions.antt =====
-- Actions that move jobs along the machine, and actions that leave the rows of jobs alone.
use tork.Prelude.{Bool, true, false, ◌≡◌, refl, ◌∙◌, if◌then◌else◌}
use tork.Exec.{World, M, Result, proceed, with_tx, ◌>>=◌}
use tork.Eval
use tork.Moves.{Moves, Moves-refl, Moves-trans, Moves-same, settle-Moves}

-- Whatever the world, every row of a job is still there, and moved on.
pub record IsMover {A : Type 0} (m : M A) : Type 0 where
  pub at : (w : World) → Moves w.db.jobs (m w).1.db.jobs

-- No row of a job is touched, nor what other connections see of them.
pub record IsStill {A : Type 0} (m : M A) : Type 0 where
  pub at : (w : World) → (m w).1.db.jobs ≡ w.db.jobs
  pub outside : (w : World) → (m w).1.committed.jobs ≡ w.committed.jobs

-- In a transaction: rows move on, and other connections see none of it.
pub record IsInner {A : Type 0} (m : M A) : Type 0 where
  pub at : (w : World) → Moves w.db.jobs (m w).1.db.jobs
  pub outside : (w : World) → (m w).1.committed.jobs ≡ w.committed.jobs

pub IsStill-IsMover : {A : Type 0} (m : M A) → IsStill m → IsMover m
IsStill-IsMover m still = record { at = λ w. Moves-same w.db.jobs (m w).1.db.jobs (still.at w) }

pub IsStill-IsInner : {A : Type 0} (m : M A) → IsStill m → IsInner m
IsStill-IsInner m still = record {
  at = λ w. Moves-same w.db.jobs (m w).1.db.jobs (still.at w);
  outside = still.outside;
}

proceed-IsMover :
    {A B : Type 0}
    → (r : Result A) (f : A → M B) → ((a : A) → IsMover (f a))
    → (v : World) → Moves v.db.jobs (proceed r f v).1.db.jobs
proceed-IsMover (Eval.Result.ok a) f next v = (next a).at v
proceed-IsMover (Eval.Result.err e) f next v = Moves-refl v.db.jobs

-- One action after another.
pub bind-IsMover :
    {A B : Type 0}
    → (m : M A) (f : A → M B) → IsMover m
    → ((a : A) → IsMover (f a))
    → IsMover (m >>= f)
bind-IsMover m f first next = record {
  at = λ w.
      Moves-trans w.db.jobs (m w).1.db.jobs ((m >>= f) w).1.db.jobs (first.at w)
        (proceed-IsMover (m w).0 f next (m w).1);
}

pub still_then :
    {A B : Type 0}
    → (m : M A) (f : A → M B) → IsStill m
    → ((a : A) → IsMover (f a))
    → IsMover (m >>= f)
still_then m f first next = bind-IsMover m f (IsStill-IsMover m first) next

proceed-IsInner :
    {A B : Type 0}
    → (r : Result A) (f : A → M B) → ((a : A) → IsInner (f a))
    → (v : World)
    → Moves v.db.jobs (proceed r f v).1.db.jobs
      × ((proceed r f v).1.committed.jobs ≡ v.committed.jobs)
proceed-IsInner (Eval.Result.ok a) f next v = ((next a).at v, (next a).outside v)
proceed-IsInner (Eval.Result.err e) f next v = (Moves-refl v.db.jobs, refl)

pub bind-IsInner :
    {A B : Type 0}
    → (m : M A) (f : A → M B) → IsInner m
    → ((a : A) → IsInner (f a))
    → IsInner (m >>= f)
bind-IsInner m f first next = record {
  at = λ w.
      Moves-trans w.db.jobs (m w).1.db.jobs ((m >>= f) w).1.db.jobs (first.at w)
        (proceed-IsInner (m w).0 f next (m w).1).0;
  outside = λ w. (proceed-IsInner (m w).0 f next (m w).1).1 ∙ first.outside w;
}

pub if-IsMover :
    {A : Type 0} (b : Bool) (m n : M A) → IsMover m → IsMover n → IsMover (if b then m else n)
if-IsMover true m n yes_ no_ = yes_
if-IsMover false m n yes_ no_ = no_

-- A transaction, whether it is committed or rolled back.
pub with_tx-IsMover : {A : Type 0} (body : M A) → IsInner body → IsMover (with_tx body)
unfolding with_tx
with_tx-IsMover body inner = record {
  at = λ w.
      let start = record w { committed = w.db } in
      settle-Moves w.db.jobs (body start).0 (body start).1 (inner.at start)
        (Moves-same w.db.jobs (body start).1.committed.jobs (inner.outside start));
}

proceed-IsStill :
    {A B : Type 0}
    → (r : Result A) (f : A → M B) → ((a : A) → IsStill (f a))
    → (v : World)
    → ((proceed r f v).1.db.jobs ≡ v.db.jobs)
      × ((proceed r f v).1.committed.jobs ≡ v.committed.jobs)
proceed-IsStill (Eval.Result.ok a) f next v = ((next a).at v, (next a).outside v)
proceed-IsStill (Eval.Result.err e) f next v = (refl, refl)

pub bind-IsStill :
    {A B : Type 0}
    → (m : M A) (f : A → M B) → IsStill m
    → ((a : A) → IsStill (f a))
    → IsStill (m >>= f)
bind-IsStill m f first next = record {
  at = λ w. (proceed-IsStill (m w).0 f next (m w).1).0 ∙ first.at w;
  outside = λ w. (proceed-IsStill (m w).0 f next (m w).1).1 ∙ first.outside w;
}

pub if-IsStill :
    {A : Type 0} (b : Bool) (m n : M A) → IsStill m → IsStill n → IsStill (if b then m else n)
if-IsStill true m n yes_ no_ = yes_
if-IsStill false m n yes_ no_ = no_

pub if-IsInner :
    {A : Type 0} (b : Bool) (m n : M A) → IsInner m → IsInner n → IsInner (if b then m else n)
if-IsInner true m n yes_ no_ = yes_
if-IsInner false m n yes_ no_ = no_
