-- ===== src/Worker/Start.antt =====
-- internal/worker/worker.go: what a worker subscribes to when it starts
use Prim.Native.String.{◌++◌ as str_append}
use tork.Prelude.{
  ℕ, zero, suc, String, Bool, true, false, not, List, [], ◌∷◌, ◌++◌, Dict, All, ◌≡◌, refl,
  if◌then◌else◌,
}
use tork.Broker.Queues.{queue_exclusive_prefix, is_worker_queue, is_coordinator_queue}
use tork.Worker.{Worker}

-- The handlers that Start subscribes with a queue each.
pub data Subscription : Type 0 where
  cancel_on handle_on : String → Subscription

subscribe_times : ℕ → String → List Subscription
subscribe_times zero qname = []
subscribe_times (suc n) qname = handle_on qname ∷ subscribe_times n qname

subscribe_all : Dict ℕ → List Subscription
unfolding subscribe_times
subscribe_all [] = []
subscribe_all ((qname, concurrency) ∷ qs) =
    let rest = subscribe_all qs in
    if not (is_worker_queue qname) then rest else subscribe_times concurrency qname ++ rest

-- Start
unfoldable pub start : Worker → List Subscription
unfolding subscribe_all
start wk = cancel_on (str_append queue_exclusive_prefix wk.id) ∷ subscribe_all wk.queues

-- A queue that other workers may take tasks from.
abbrev pub IsShared : Subscription → Type 0
IsShared (cancel_on qname) = ⊥
IsShared (handle_on qname) = is_coordinator_queue qname ≡ false

All-append :
    (xs ys : List Subscription) → All IsShared xs → All IsShared ys → All IsShared (xs ++ ys)
All-append [] ys left right = right
All-append (x ∷ xs) ys (p, left) right = (p, All-append xs ys left right)

times-All :
    (n : ℕ) (qname : String)
    → is_coordinator_queue qname ≡ false
    → All IsShared (subscribe_times n qname)
unfolding subscribe_times
times-All zero qname shared = tt
times-All (suc n) qname shared = (shared, times-All n qname shared)

one-All :
    (qname : String) (n : ℕ) (rest : List Subscription) (b : Bool)
    → is_coordinator_queue qname ≡ b
    → All IsShared rest
    → All IsShared (if not (not b) then rest else subscribe_times n qname ++ rest)
one-All qname n rest true eq shared = shared
one-All qname n rest false eq shared =
    All-append (subscribe_times n qname) rest (times-All n qname eq) shared

subscribe_all-All : (qs : Dict ℕ) → All IsShared (subscribe_all qs)
unfolding subscribe_all is_worker_queue
subscribe_all-All [] = tt
subscribe_all-All ((qname, n) ∷ qs) =
    one-All qname n (subscribe_all qs) (is_coordinator_queue qname) refl (subscribe_all-All qs)

-- A worker that starts is told of cancellations on the queue of its own, and takes tasks from no queue
-- of the coordinator, whatever queues it was given.
pub start-IsShared :
    (wk : Worker)
    → (rest : List Subscription) × (start wk
        ≡ cancel_on (str_append queue_exclusive_prefix wk.id) ∷ rest)
      × All IsShared rest
unfolding start
start-IsShared wk = (subscribe_all wk.queues, refl, subscribe_all-All wk.queues)
