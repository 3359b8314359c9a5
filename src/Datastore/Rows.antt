-- ===== src/Datastore/Rows.antt =====
-- Reading a table after a write to it.
use tork.Prelude.{
  ◌≡◌, ◌≢◌, refl, String, none, some, List, [], ◌∷◌, ◌++◌, arith, str_eq, eq_iff, if◌then◌else◌,
}
use tork.Datastore.{find_row, write_row}

module _ {R : Type 0} (key : R → String) where
  -- A row that is found has the key that it was looked up by.
  pub key-find_row : (k : String) (rs : List R) (x : R) → find_row key k rs ≡ some x → key x ≡ k
  unfolding find_row
  key-find_row k [] x h = ground arith
  key-find_row k (r ∷ rs) x h = ground (arith, eq_iff (key r) k, key-find_row k rs x)

  pub find_row-write_row_self :
      (k : String) (new : R) (rs : List R) (old : R)
      → key new ≡ k
      → find_row key k rs ≡ some old
      → find_row key k (write_row key k new rs) ≡ some new
  unfolding find_row write_row
  find_row-write_row_self k new [] old e h = ground arith
  find_row-write_row_self k new (r ∷ rs) old e h =
      ground (arith, eq_iff (key r) k, eq_iff (key new) k, find_row-write_row_self k new rs old)

  pub find_row-write_row_ne :
      (k j : String) (new : R) (rs : List R)
      → key new ≡ k
      → k ≢ j
      → find_row key j (write_row key k new rs) ≡ find_row key j rs
  unfolding find_row write_row
  find_row-write_row_ne k j new [] e h = refl
  find_row-write_row_ne k j new (r ∷ rs) e h = ground (
    arith,
    eq_iff (key r) k,
    eq_iff (key r) j,
    eq_iff (key new) j,
    eq_iff k j,
    find_row-write_row_ne k j new rs e,
  )

  pub find_row-append :
      (j : String) (r : R) (rs : List R)
      → find_row key j (rs ++ r ∷ []) ≡ (elim (find_row key j rs) [
        | some x ↦ some x
        | none ↦ if str_eq (key r) j then some r else none
      ])
  unfolding find_row
  find_row-append j r [] = refl
  find_row-append j r (x ∷ rs) = ground (arith, eq_iff (key x) j, find_row-append j r rs)

  -- A write to another key makes no row of a key that had none.
  pub find_row-write_row-none :
      (k j : String) (new : R) (rs : List R)
      → key new ≡ k
      → find_row key j rs ≡ none
      → find_row key j (write_row key k new rs) ≡ none
  unfolding find_row write_row
  find_row-write_row-none k j new [] e h = refl
  find_row-write_row-none k j new (r ∷ rs) e h = ground (
    arith,
    eq_iff (key r) k,
    eq_iff (key r) j,
    eq_iff (key new) j,
    find_row-write_row-none k j new rs e,
  )
