-- ===== src/Datastore/Cleanup/Deleted.antt =====
-- What is left when jobs are deleted.
use mathlib.Core.Path.{subst}
use tork.Prelude.{
  String, Bool, true, false, not, List, [], ◌∷◌, ◌≡◌, refl, sym, ap, inl, inr, All, arith, eq_iff,
  Bool-cases, if◌then◌else◌,
}
use tork.Exec.{World}
use tork.Datastore.{find_row, job_key}
use tork.Datastore.Users.{filter_rows}
use tork.Datastore.Cleanup.{is_any, ids_of_tasks, without_jobs, delete_jobs}

-- Every row that is left passes the test.
filter_rows-All :
    {A : Type 0} → (p : A → Bool) (l : List A) → All (λ a. p a ≡ true) (filter_rows p l)
unfolding filter_rows
filter_rows-All p [] = tt
filter_rows-All p (a ∷ l) = elim (Bool-cases (p a)) [
  | inl keep ↦
      subst (λ b. All (λ x. p x ≡ true) (if b then a ∷ filter_rows p l else filter_rows p l))
        (sym keep) (keep, filter_rows-All p l)
  | inr drop ↦
      subst (λ b. All (λ x. p x ≡ true) (if b then a ∷ filter_rows p l else filter_rows p l))
        (sym drop) (filter_rows-All p l)
]

-- A row that passes the test is found as before.
find_row-filter_rows :
    {A : Type 0}
    → (key : A → String) (p : String → Bool) (k : String) (l : List A) → p k ≡ true
    → find_row key k (filter_rows (λ a. p (key a)) l) ≡ find_row key k l
unfolding filter_rows find_row
find_row-filter_rows key p k [] keep = refl
find_row-filter_rows key p k (a ∷ l) keep =
    ground (arith, find_row-filter_rows key p k l keep, eq_iff (key a) k)

-- After jobs are deleted, no job and no task of them is left, no part of a log of their tasks is
-- left, and every other job is found as before.
pub delete_jobs-others :
    (id : String) (ids : List String) (k : String) (w : World)
    → is_any (id ∷ ids) k ≡ false
    → let v = (delete_jobs (id ∷ ids) w).1 in
      All (λ j. not (is_any (id ∷ ids) j.id) ≡ true) v.db.jobs
      × All (λ t. not (is_any (id ∷ ids) t.job_id) ≡ true) v.db.tasks
      × All (λ p. not (is_any (ids_of_tasks (id ∷ ids) w.db.tasks) p.task_id) ≡ true) v.db.log_parts
      × (find_row job_key k v.db.jobs ≡ find_row job_key k w.db.jobs)
unfolding delete_jobs without_jobs
delete_jobs-others id ids k w other = (
  filter_rows-All (λ j. not (is_any (id ∷ ids) j.id)) w.db.jobs,
  filter_rows-All (λ t. not (is_any (id ∷ ids) t.job_id)) w.db.tasks,
  filter_rows-All (λ p. not (is_any (ids_of_tasks (id ∷ ids) w.db.tasks) p.task_id)) w.db.log_parts,
  find_row-filter_rows job_key (λ i. not (is_any (id ∷ ids) i)) k w.db.jobs (ap not other),
)
