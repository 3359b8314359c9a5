-- ===== src/Datastore/Paging.antt =====
-- datastore/datastore.go: `Page`, and the statements with which GetTaskLogParts, GetJobLogParts,
-- GetJobs and GetScheduledJobs of datastore/postgres/postgres.go cut a page out of a result.
use Prim.Native.Nat.{◌%◌}
use tork.Prelude.{
  ℕ, zero, suc, ◌+◌, ◌-◌, ◌*◌, ◌/◌, List, [], ◌∷◌, ◌++◌, length, ◌==◌, if◌then◌else◌,
}
pub mod All

pub record Page (A : Type 0) : Type 0 where
  pub items : List A
  pub number : ℕ
  pub size : ℕ
  pub total_pages : ℕ
  pub total_items : ℕ

-- LIMIT
unfoldable pub take {ℓ} : {A : Type ℓ} → ℕ → List A → List A
take zero l = []
take (suc n) [] = []
take (suc n) (a ∷ l) = a ∷ take n l

-- OFFSET
unfoldable pub drop {ℓ} : {A : Type ℓ} → ℕ → List A → List A
drop zero l = l
drop (suc n) [] = []
drop (suc n) (a ∷ l) = drop n l

-- The number of pages of so many items. Callers give a size of 1 at least.
unfoldable pub pages_for : ℕ → ℕ → ℕ
pages_for count size = if count % size == 0 then count / size else count / size + 1

-- The page of the rows, where `count` is what the second query counts.
unfoldable pub page_of : {A : Type 0} → ℕ → ℕ → ℕ → List A → Page A
unfolding take drop pages_for
page_of count page size rows =
    let items = take size (drop ((page - 1) * size) rows) in
    record {
      items = items;
      number = page;
      size = length items;
      total_pages = pages_for count size;
      total_items = count;
    }
