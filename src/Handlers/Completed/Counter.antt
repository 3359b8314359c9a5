-- ===== src/Handlers/Completed/Counter.antt =====
-- How many of the tasks of an each are under way.
use tork.Prelude.{ℕ, suc, zero, ◌+◌, ◌<◌, ◌≡◌, arith, if◌then◌else◌, ltb}
use tork.Task.{EachInfo}
use tork.Handlers.Completed.{fires_next, counted, all_complete}

-- The counters of an each after a number of completions.
pub after : ℕ → EachInfo → EachInfo
after zero e = e
after (suc k) e = counted (after k e)

-- The number of tasks that these completions have sent to the broker.
pub fired : ℕ → EachInfo → ℕ
unfolding after
fired zero e = 0
fired (suc k) e = fired k e + (if fires_next (after k e) then 1 else 0)

after_lem :
    (k : ℕ) (e : EachInfo)
    → ((after k e).size ≡ e.size)
      × ((after k e).concurrency ≡ e.concurrency)
      × ((after k e).completions ≡ e.completions + k)
      × ((after k e).index ≡ e.index + k)
unfolding after counted
after_lem zero e = ground arith
after_lem (suc k) e = ground (arith, after_lem k e)

-- How many are sent when the each is scheduled.
pub first : EachInfo → ℕ
first e = if ltb e.concurrency e.size then e.concurrency else e.size

-- What the scheduler makes of an each with a bound on concurrency.
pub record IsScheduled (e : EachInfo) : Type 0 where
  pub bounded : 0 < e.concurrency
  pub none_done : e.completions ≡ 0
  pub index_eq : e.index ≡ e.concurrency

-- An each with a bound c on concurrency, scheduled with its index at the bound and with no task
-- complete, has after k completions sent c + k tasks, if the size of the each is more than that,
-- and else as many as its size.
pub first-fired :
    (k : ℕ) (e : EachInfo)
    → IsScheduled e
    → first e + fired k e ≡ (if ltb (e.concurrency + k) e.size then e.concurrency + k else e.size)
unfolding fired fires_next all_complete first
first-fired zero e h = ground (arith, h.bounded)
first-fired (suc k) e h =
    ground (arith, h.bounded, h.none_done, h.index_eq, after_lem k e, first-fired k e h)
