-- ===== src/Datastore/RoundTrip.antt =====
-- What is read after it was written.
use mathlib.Core.List.{map}
use tork.Prelude.{refl, ap, List, [], ◌∷◌, ◌≡◌, ◌≢◌, String, some, arith}
use tork.Task.{Mount, Task}
use tork.Exec.{Env, World, pure, ok}
use tork.Datastore.{
  find_row, task_key, without_ids, inserted_task, get_task, update_task, written_task,
}
use tork.Datastore.Rows.{key-find_row, find_row-write_row_self, find_row-write_row_ne}

-- A task as its row has it once it is created: with no progress, no NUL characters in its error and its
-- result, and no identifiers of its mounts.
abbrev pub as_created : Env → Task → Task
as_created env t = record t {
  info = record t.info {
    progress = 0;
    error = env.sanitize t.error;
    result = env.sanitize t.result;
    mounts = map (λ (m : Mount). record m { id = "" }) t.mounts;
  };
}

without_ids-map : (ms : List Mount) → without_ids ms ≡ map (λ (m : Mount). record m { id = "" }) ms
unfolding without_ids
without_ids-map [] = refl
without_ids-map (m ∷ ms) = ap (λ rest. record m { id = "" } ∷ rest) (without_ids-map ms)

pub inserted_task-as_created : (env : Env) (t : Task) → inserted_task env t ≡ as_created env t
unfolding inserted_task
inserted_task-as_created env t =
    ap (λ ms. record (as_created env t) { info = record (as_created env t).info { mounts = ms } })
      (without_ids-map t.mounts)

-- A task that is updated is read back with the columns of the statement that updates it, and every
-- other task is read as before.
pub update_task-get_task :
    (modify : Task → Task) (old : Task) (w : World) (id k : String)
    → find_row task_key id w.db.tasks ≡ some old
    → id ≢ k
    → let v = (update_task id (λ u. pure (modify u)) w).1 in
      ((update_task id (λ u. pure (modify u)) w).0 ≡ ok tt)
      × ((get_task id v).0 ≡ ok (written_task old (modify old)))
      × ((get_task k v).0 ≡ (get_task k w).0)
unfolding update_task get_task written_task
update_task-get_task modify old w id k found ne =
    let new = written_task old (modify old) in
    let same = key-find_row task_key id w.db.tasks old found in
    ground (
      arith,
      same,
      find_row-write_row_self task_key id new w.db.tasks old same found,
      find_row-write_row_ne task_key id k new w.db.tasks same,
    )
