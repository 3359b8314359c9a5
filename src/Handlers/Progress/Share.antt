-- ===== src/Handlers/Progress/Share.antt =====
-- The share of a job that is done.
use tork.Prelude.{ℕ, ◌+◌, ◌-◌, ◌*◌, ◌≤◌, ◌<◌, arith}
use tork.Task.{Task}
use tork.Job.{Job}
use tork.Handlers.Completed.Advance.{round_div_le}
use tork.Handlers.Jobs
use tork.Handlers.Progress
use tork.Handlers.Progress.{Reading, negative, hundredths, clamp, overall}

clamp-le : (reading : Reading) → clamp reading ≤ 10000
unfolding clamp
clamp-le negative = omega arith
clamp-le (hundredths n) = ground arith

-- A job that is at one of its tasks is done to 100% at most.
pub overall-le :
    (reading : Reading) (j : Job)
    → 0 < j.position
    → j.position ≤ j.task_count
    → overall (clamp reading) j ≤ 10000
unfolding overall clamp
overall-le negative j started within = grind (
  arith,
  round_div_le ((j.position - 1) * 10000 + 0) j.task_count 10000 (omega arith) (omega arith),
)
overall-le (hundredths n) j started within =
    let p = clamp (hundredths n) in
    round_div_le ((j.position - 1) * 10000 + p) j.task_count 10000 (omega arith)
      (ground (arith, clamp-le (hundredths n)))

-- A report brought between 0 and 100%.
pub data IsWithin : Reading → ℕ → Type 0 where
  low : IsWithin negative 0
  inside : (n : ℕ) → n ≤ 10000 → IsWithin (hundredths n) n
  high : (n : ℕ) → 10000 < n → IsWithin (hundredths n) 10000

-- `s` is the quotient of `a` and `b`, rounded to the nearest, halves going up.
pub record IsRounded (a b s : ℕ) : Type 0 where
  pub at_least : (2 * b) * s ≤ 2 * a + b
  pub below : 2 * a + b < (2 * b) * (s + 1)
