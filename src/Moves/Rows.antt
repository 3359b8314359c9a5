-- ===== src/Moves/Rows.antt =====
-- What the operations of the datastore do to the rows of jobs.
use mathlib.Core.Path.{subst}
use mathlib.Core.Option.{some_inj}
use tork.Prelude.{
  String, Option, none, some, List, [], ◌≡◌, refl, sym, ap, ◌∙◌, arith, str_eq, eq_iff, inl, inr,
  Bool-cases,
}
use tork.Job.{JobState, Job}
use tork.Exec.{World, M, Result, ok, err, proceed, pure, need, job_not_found, ◌>>=◌, ◌>>◌}
use tork.Eval
use tork.Datastore.{
  find_row, write_row, job_key, written_job, update_job, update_job_returning, put_job,
}
use tork.Datastore.Rows.{key-find_row, find_row-write_row_self, find_row-write_row_ne}
use tork.Moves.{JobSteps, here, Moves, Moves-refl, Moves-same}

-- A row is written whose state is a move on.
write_row-Moves :
    (js : List Job) (id : String) (old new : Job)
    → find_row job_key id js ≡ some old
    → new.id ≡ id
    → JobSteps old.state new.state
    → Moves js (write_row job_key id new js)
write_row-Moves js id old new at same steps k j found = elim (Bool-cases (str_eq id k)) [
  | inl hit ↦
      let id_k : id ≡ k = ground (arith, eq_iff id k, hit) in
      let same_row : old ≡ j = some_inj.0 (sym at ∙ ap (λ i. find_row job_key i js) id_k ∙ found) in
      (
        new,
        ap (λ i. find_row job_key i (write_row job_key id new js)) (sym id_k)
            ∙ find_row-write_row_self job_key id new js old same at,
        subst (λ x. JobSteps x.state new.state) same_row steps,
      )
  | inr miss ↦ (
    j,
    find_row-write_row_ne job_key id k new js same (ground (arith, eq_iff id k)) ∙ found,
    here,
  )
]

-- What an update makes of a row it is given: a move on, or an error.
abbrev pub StepsOn : JobState → Result Job → Type 0
StepsOn s (Eval.Result.ok u) = JobSteps s u.state
StepsOn s (Eval.Result.err e) = Unit

-- The table `ks`, which holds the row, is written with what the update made of it.
put-Moves :
    (js : List Job) (id : String) (old new : Job) (v : World)
    → find_row job_key id js ≡ some old
    → v.db.jobs ≡ js
    → JobSteps old.state new.state
    → Moves js (write_row job_key old.id (written_job old new) v.db.jobs)
unfolding written_job
put-Moves js id old new v found same steps =
    let key = key-find_row job_key id js old found in
    subst (λ rows. Moves js (write_row job_key old.id (written_job old new) rows)) (sym same)
      (write_row-Moves js old.id old (written_job old new)
        (ap (λ i. find_row job_key i js) key ∙ found) refl steps)

-- The row as an update is given it.
abbrev pub given : Job → Job
given old = record old { execution = []; permissions = [] }

module _ (id : String) (modify : Job → M Job) (w : World)
    (quiet : (u : Job) → (modify u w).1.db.jobs ≡ w.db.jobs)
    (steps : (old : Job)
      → find_row job_key id w.db.jobs ≡ some old
      → StepsOn old.state (modify (given old) w).0) where
  after_modify :
      (old : Job) (r : Result Job) (v : World)
      → find_row job_key id w.db.jobs ≡ some old
      → v.db.jobs ≡ w.db.jobs
      → StepsOn old.state r
      → Moves w.db.jobs (proceed r (λ new. put_job (written_job old new)) v).1.db.jobs
  unfolding put_job written_job
  after_modify old (Eval.Result.ok new) v found same on =
      put-Moves w.db.jobs id old new v found same on
  after_modify old (Eval.Result.err e) v found same on = Moves-same w.db.jobs v.db.jobs same

  pub update_job-Moves_at : Moves w.db.jobs (update_job id modify w).1.db.jobs
  unfolding update_job
  update_job-Moves_at = go (find_row job_key id w.db.jobs) refl
    where
      go :
          (o : Option Job)
          → find_row job_key id w.db.jobs ≡ o
          → Moves w.db.jobs
              (proceed
                (need o job_not_found w).0
                (λ old. modify (record old { execution = []; permissions = [] }) >>= λ new.
                  put_job (written_job old new))
                (need o job_not_found w).1).1.db.jobs
      go none found = Moves-refl w.db.jobs
      go (some old) found =
          let u = given old in
          after_modify old (modify u w).0 (modify u w).1 found (quiet u) (steps old found)

pub update_job-Moves :
    (id : String) (modify : Job → M Job) (w : World)
    → ((u : Job) → (modify u w).1.db.jobs ≡ w.db.jobs)
    → ((u : Job) → StepsOn u.state (modify u w).0)
    → Moves w.db.jobs (update_job id modify w).1.db.jobs
update_job-Moves id modify w quiet steps =
    update_job-Moves_at id modify w quiet (λ old found. steps (given old))

-- The row of an update that answers something more.
abbrev pub drop_extra : {A : Type 0} → Result (Job × A) → Result Job
drop_extra (Eval.Result.ok (u, a)) = ok u
drop_extra (Eval.Result.err e) = err e

module _ {A : Type 0} (id : String) (modify : Job → M (Job × A)) (w : World)
    (quiet : (u : Job) → (modify u w).1.db.jobs ≡ w.db.jobs)
    (steps : (u : Job) → StepsOn u.state (drop_extra (modify u w).0)) where
  after_returning :
      (old : Job) (r : Result (Job × A)) (v : World)
      → find_row job_key id w.db.jobs ≡ some old
      → v.db.jobs ≡ w.db.jobs
      → StepsOn old.state (drop_extra r)
      → Moves w.db.jobs (proceed r (λ na. put_job (written_job old na.0) >> pure na.1) v).1.db.jobs
  unfolding put_job written_job
  after_returning old (Eval.Result.ok (new, a)) v found same on =
      put-Moves w.db.jobs id old new v found same on
  after_returning old (Eval.Result.err e) v found same on = Moves-same w.db.jobs v.db.jobs same

  pub update_job_returning-Moves : Moves w.db.jobs (update_job_returning id modify w).1.db.jobs
  unfolding update_job_returning
  update_job_returning-Moves = go (find_row job_key id w.db.jobs) refl
    where
      go :
          (o : Option Job)
          → find_row job_key id w.db.jobs ≡ o
          → Moves w.db.jobs
              (proceed
                (need o job_not_found w).0
                (λ old. modify (record old { execution = []; permissions = [] }) >>= λ na.
                  put_job (written_job old na.0) >> pure na.1)
                (need o job_not_found w).1).1.db.jobs
      go none found = Moves-refl w.db.jobs
      go (some old) found =
          let u = record old { execution = []; permissions = [] } in
          after_returning old (modify u w).0 (modify u w).1 found (quiet u) (steps u)
