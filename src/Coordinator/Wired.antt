-- ===== src/Coordinator/Wired.antt =====
-- Every queue of the coordinator has a subscriber.
use tork.Prelude.{ℕ, ◌<◌, String, List, [], ◌∷◌, Dict, insert, ◌≡◌, ◌≢◌, All, arith, eq_iff}
use tork.Broker.Queues.{
  coordinator_queues, queue_pending, queue_started, queue_completed, queue_error, queue_heartbeat,
  queue_jobs, queue_logs, queue_progress,
}
use tork.Coordinator.{queue_count, at_least_one, at_least_one_each, with_queues}

queue_count-insert_self : (k : String) (n : ℕ) (qs : Dict ℕ) → queue_count k (insert k n qs) ≡ n
unfolding queue_count insert
queue_count-insert_self k n [] = ground (arith, eq_iff k k)
queue_count-insert_self k n ((j, m) ∷ qs) =
    ground (arith, eq_iff j k, eq_iff k k, queue_count-insert_self k n qs)

queue_count-insert_ne :
    (k j : String) (n : ℕ) (qs : Dict ℕ) → j ≢ k → queue_count k (insert j n qs) ≡ queue_count k qs
unfolding queue_count insert
queue_count-insert_ne k j n [] ne = ground (arith, eq_iff j k)
queue_count-insert_ne k j n ((i, m) ∷ qs) ne =
    ground (arith, eq_iff i k, eq_iff j k, eq_iff i j, queue_count-insert_ne k j n qs ne)

at_least_one_self : (k : String) (qs : Dict ℕ) → 0 < queue_count k (at_least_one k qs)
unfolding at_least_one
at_least_one_self k qs = ground (arith, queue_count-insert_self k 1 qs)

-- Another queue has as many as before, or more.
at_least_one-keeps :
    (k j : String) (qs : Dict ℕ) → 0 < queue_count k qs → 0 < queue_count k (at_least_one j qs)
unfolding at_least_one
at_least_one-keeps k j qs has =
    ground (arith, eq_iff j k, queue_count-insert_ne k j 1 qs, queue_count-insert_self k 1 qs)

each-keeps :
    (k : String) (js : List String) (qs : Dict ℕ)
    → 0 < queue_count k qs
    → 0 < queue_count k (at_least_one_each js qs)
unfolding at_least_one_each
each-keeps k [] qs has = has
each-keeps k (j ∷ js) qs has = each-keeps k js (at_least_one j qs) (at_least_one-keeps k j qs has)

each-All :
    (js : List String) (qs : Dict ℕ) → All (λ k. 0 < queue_count k (at_least_one_each js qs)) js
unfolding at_least_one_each
each-All [] qs = tt
each-All (j ∷ js) qs =
    (each-keeps j js (at_least_one j qs) (at_least_one_self j qs), each-All js (at_least_one j qs))

-- However a coordinator is configured, it takes messages from each of its eight queues.
pub with_queues-All :
    (qs : Dict ℕ) → All (λ k. 0 < queue_count k (with_queues qs)) coordinator_queues
unfolding with_queues
with_queues-All qs =
    let (completed, (error, (pending, (started, rest)))) =
      each-All
        (queue_completed ∷ queue_error ∷ queue_pending ∷ queue_started ∷ queue_heartbeat
          ∷ queue_jobs ∷ queue_logs ∷ queue_progress ∷ [])
        qs in
    (pending, (started, (completed, (error, rest))))
