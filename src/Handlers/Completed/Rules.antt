-- ===== src/Handlers/Completed/Rules.antt =====
-- Rules for actions that keep the parents of the tasks: in every table that is read, a task comes
-- after its parent in a given order.
use mathlib.Core.Path.{subst}
use tork.Prelude.{
  ℕ, ◌≡◌, ◌<◌, ◌⊎◌, refl, Bool, true, false, String, Option, none, some, List, [], ◌∷◌, All, str_eq,
  if◌then◌else◌, arith,
}
use tork.Task.{Task}
use tork.Job.{Job}
use tork.Eval
use tork.Exec.{
  M, Result, World, Error, pure, fail, proceed, ◌>>=◌, ensure, publish_task, settle, with_tx, need,
  task_not_found, job_not_found,
}
use tork.Datastore.{
  put_task_outside, job_key, get_next_task_outside, next_created, update_task_outside, find_row,
  write_row, task_key, get_task, written_task, put_task, update_task, update_task_returning,
  update_job,
}
use tork.Datastore.Rows.{key-find_row}

module _ {A : Type 0} (P : A → Type 0) (key : A → String) where
  found-P :
      (b : Bool) (r x : A) (o : Option A)
      → (if b then some r else o) ≡ some x
      → P r
      → (o ≡ some x → P x)
      → P x
  found-P true r x o h p k = subst P (ground (arith, h)) p
  found-P false r x o h p k = k h

  All-find_row : (k : String) (rs : List A) (x : A) → All P rs → find_row key k rs ≡ some x → P x
  unfolding find_row
  All-find_row k [] x all h = ground arith
  All-find_row k (r ∷ rs) x all h =
      found-P (str_eq (key r) k) r x (find_row key k rs) h all.0 (All-find_row k rs x all.1)

  pick-All : (b : Bool) (xs ys : List A) → All P xs → All P ys → All P (if b then xs else ys)
  pick-All true xs ys p q = p
  pick-All false xs ys p q = q

  All-write_row :
      (k : String) (new : A) (rs : List A) → All P rs → P new → All P (write_row key k new rs)
  unfolding write_row
  All-write_row k new [] all p = tt
  All-write_row k new (r ∷ rs) all p =
      pick-All (str_eq (key r) k) (new ∷ rs) (r ∷ write_row key k new rs) (p, all.1)
        (all.0, All-write_row k new rs all.1 p)

abbrev pub Any : {A : Type 0} → A → Type 0
Any a = Unit

module _ (rank : String → ℕ) where
  -- A task with a parent ranks above it.
  abbrev pub IsAbove : Task → Type 0
  IsAbove u = (u.parent_id ≡ "") ⊎ (rank u.parent_id < rank u.id)

  pub record IsRanked (w : World) : Type 0 where
    pub now : All IsAbove w.db.tasks
    pub before : All IsAbove w.committed.tasks

  abbrev Post : {A : Type 0} → (A → Type 0) → Result A → World → Type 0
  Post Q (Eval.Result.ok a) w = IsRanked w × Q a
  Post Q (Eval.Result.err e) w = IsRanked w

  -- The action keeps the order, and what it returns has the property.
  abbrev pub Keeps : {A : Type 0} → (A → Type 0) → M A → Type 0
  Keeps Q m = (w : World) → IsRanked w → Post Q (m w).0 (m w).1

  proceed-Keeps :
      {A B : Type 0} (Q : A → Type 0) (R : B → Type 0) (r : Result A) (f : A → M B) (w : World)
      → Post Q r w
      → ((a : A) → Q a → Keeps R (f a))
      → Post R (proceed r f w).0 (proceed r f w).1
  proceed-Keeps Q R (Eval.Result.ok a) f w h k = k a h.1 w h.0
  proceed-Keeps Q R (Eval.Result.err e) f w h k = h

  pub bind-Keeps :
      {A B : Type 0} (Q : A → Type 0) (R : B → Type 0) (m : M A) (f : A → M B)
      → Keeps Q m
      → ((a : A) → Q a → Keeps R (f a))
      → Keeps R (m >>= f)
  bind-Keeps Q R m f h k w i = proceed-Keeps Q R (m w).0 f (m w).1 (h w i) k

  proceed-eq :
      {A B : Type 0} (Q : A → Type 0) (r : Result A) (f g : A → M B) (w : World)
      → Post Q r w
      → ((a : A) → Q a → (v : World) → IsRanked v → f a v ≡ g a v)
      → proceed r f w ≡ proceed r g w
  proceed-eq Q (Eval.Result.ok a) f g w h k = k a h.1 w h.0
  proceed-eq Q (Eval.Result.err e) f g w h k = refl

  -- Two continuations that agree on what an action may leave.
  pub bind-eq :
      {A B : Type 0} (Q : A → Type 0) (m : M A) (f g : A → M B)
      → Keeps Q m
      → ((a : A) → Q a → (v : World) → IsRanked v → f a v ≡ g a v)
      → (w : World) → IsRanked w
      → (m >>= f) w ≡ (m >>= g) w
  bind-eq Q m f g h k w i = proceed-eq Q (m w).0 f g (m w).1 (h w i) k

  need-Keeps :
      {A : Type 0} (Q : A → Type 0) (o : Option A) (e : Error) (w : World)
      → IsRanked w
      → ((a : A) → o ≡ some a → Q a)
      → Post Q (need o e w).0 (need o e w).1
  need-Keeps Q none e w i h = i
  need-Keeps Q (some a) e w i h = (i, h a refl)

  pub get_task-Keeps : (id : String) → Keeps (λ u. IsAbove u × (u.id ≡ id)) (get_task id)
  unfolding get_task
  get_task-Keeps id w i =
      need-Keeps (λ u. IsAbove u × (u.id ≡ id)) (find_row task_key id w.db.tasks) task_not_found w i
        λ u found. (
          All-find_row IsAbove task_key id w.db.tasks u i.now found,
          key-find_row task_key id w.db.tasks u found,
        )

  put_task-Keeps : (t : Task) → IsAbove t → Keeps Any (put_task t)
  unfolding put_task
  put_task-Keeps t p w i = (
    record { now = All-write_row IsAbove task_key t.id t w.db.tasks i.now p; before = i.before },
    tt,
  )

  pub update_task-Keeps :
      (id : String) (modify : Task → M Task)
      → ((u : Task) → Keeps Any (modify u))
      → Keeps Any (update_task id modify)
  unfolding update_task written_task
  update_task-Keeps id modify h =
      bind-Keeps (λ u. IsAbove u × (u.id ≡ id)) Any (get_task id) _ (get_task-Keeps id)
        λ old p.
          bind-Keeps Any Any (modify old) _ (h old)
            λ new q. put_task-Keeps (written_task old new) p.0

  pub update_task_returning-Keeps :
      {A : Type 0} (id : String) (modify : Task → M (Task × A))
      → ((u : Task) → Keeps Any (modify u))
      → Keeps Any (update_task_returning id modify)
  unfolding update_task_returning written_task
  update_task_returning-Keeps id modify h =
      bind-Keeps (λ u. IsAbove u × (u.id ≡ id)) Any (get_task id) _ (get_task-Keeps id)
        λ old p. bind-Keeps Any Any (modify old) _ (h old) λ new q.
          bind-Keeps Any Any (put_task (written_task old new.0)) (λ _. pure new.1)
            (put_task-Keeps (written_task old new.0) p.0) λ _ _ w i. (i, tt)

  settle-Keeps :
      {A : Type 0} (r : Result A) (w : World)
      → Post Any r w
      → Post Any (settle r w).0 (settle r w).1
  settle-Keeps (Eval.Result.ok a) w h = h
  settle-Keeps (Eval.Result.err e) w h = record { now = h.before; before = h.before }

  pub with_tx-Keeps : {A : Type 0} (body : M A) → Keeps Any body → Keeps Any (with_tx body)
  unfolding with_tx
  with_tx-Keeps body h w i =
      let begun = record w { committed = w.db } in
      settle-Keeps (body begun).0 (body begun).1 (h begun (record { now = i.now; before = i.now }))

  pub update_job-Keeps :
      (id : String) (modify : Job → Job) → Keeps Any (update_job id (λ u. pure (modify u)))
  unfolding update_job
  update_job-Keeps id modify =
      bind-Keeps Any Any (λ v. need (find_row job_key id v.db.jobs) job_not_found v) _
        (λ v i. need-Keeps Any (find_row job_key id v.db.jobs) job_not_found v i λ _ _. tt)
        λ old _ v i. (record { now = i.now; before = i.before }, tt)

  pub get_next_task_outside-Keeps : (id : String) → Keeps Any (get_next_task_outside id)
  unfolding get_next_task_outside
  get_next_task_outside-Keeps id w i =
      need-Keeps Any (next_created id w.committed.tasks) task_not_found w i λ _ _. tt

  put_task_outside-Keeps : (t : Task) → IsAbove t → Keeps Any (put_task_outside t)
  unfolding put_task_outside
  put_task_outside-Keeps t p w i = (
    record {
      now = All-write_row IsAbove task_key t.id t w.db.tasks i.now p;
      before = All-write_row IsAbove task_key t.id t w.committed.tasks i.before p;
    },
    tt,
  )

  pub update_task_outside-Keeps :
      (id : String) (modify : Task → Task) → Keeps Any (update_task_outside id modify)
  unfolding update_task_outside written_task
  update_task_outside-Keeps id modify =
      bind-Keeps IsAbove Any (λ v. need (find_row task_key id v.committed.tasks) task_not_found v) _
        (λ v i.
          need-Keeps IsAbove (find_row task_key id v.committed.tasks) task_not_found v i
            λ old found. All-find_row IsAbove task_key id v.committed.tasks old i.before found)
        λ old p. put_task_outside-Keeps (written_task old (modify old)) p

  pub pure-Keeps : {A : Type 0} (a : A) → Keeps Any (pure a)
  pure-Keeps a w i = (i, tt)

  pub fail-Keeps : (A : Type 0) (e : Error) → Keeps Any (fail {A = A} e)
  fail-Keeps A e w i = i

  pub if-Keeps :
      {A : Type 0} (b : Bool) (m n : M A)
      → Keeps Any m
      → Keeps Any n
      → Keeps Any (if b then m else n)
  if-Keeps true m n h k = h
  if-Keeps false m n h k = k

  pub ensure-Keeps : (b : Bool) (e : Error) → Keeps Any (ensure b e)
  ensure-Keeps true e w i = (i, tt)
  ensure-Keeps false e w i = i

  pub publish-Keeps : (queue : String) (t : Task) → Keeps Any (publish_task queue t)
  publish-Keeps queue t w i = (record { now = i.now; before = i.before }, tt)
