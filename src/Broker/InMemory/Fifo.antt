-- ===== src/Broker/InMemory/Fifo.antt =====
-- Messages leave a queue in the order in which they came.
use tork.Prelude.{◌<◌, String, some, [], ◌∷◌, ◌++◌, Dict, insert, length, ◌≡◌, ◌≢◌, arith, eq_iff}
use tork.Exec.{Message}
use tork.Broker.InMemory.{Queue, InMemoryBroker, queue_at, publish, default_queue_size}

queue_at-insert : (k : String) (q : Queue) (qs : Dict Queue) → queue_at k (insert k q qs) ≡ q
unfolding queue_at insert
queue_at-insert k q [] = ground (arith, eq_iff k k)
queue_at-insert k q ((j, old) ∷ qs) = ground (arith, eq_iff j k, eq_iff k k, queue_at-insert k q qs)

queue_at-insert_ne :
    (k j : String) (q : Queue) (qs : Dict Queue)
    → k ≢ j
    → queue_at j (insert k q qs) ≡ queue_at j qs
unfolding queue_at insert
queue_at-insert_ne k j q [] ne = ground (arith, eq_iff k j)
queue_at-insert_ne k j q ((i, old) ∷ qs) ne =
    ground (arith, eq_iff i k, eq_iff i j, eq_iff k j, queue_at-insert_ne k j q qs ne)

-- A message that is published to a queue with room joins its end, and no other queue changes.
pub publish-last :
    (qname other : String) (m : Message) (b : InMemoryBroker)
    → length (queue_at qname b.queues).ch < default_queue_size
    → qname ≢ other
    → (b' : InMemoryBroker) × (publish qname m b ≡ some b')
      × ((queue_at qname b'.queues).ch ≡ (queue_at qname b.queues).ch ++ m ∷ [])
      × (queue_at other b'.queues ≡ queue_at other b.queues)
unfolding publish
publish-last qname other m b room ne =
    let q = queue_at qname b.queues in
    let q' = record q { ch = q.ch ++ m ∷ [] } in
    (
      record b { queues = insert qname q' b.queues },
      ground (arith, room),
      ground (arith, queue_at-insert qname q' b.queues),
      queue_at-insert_ne qname other q' b.queues ne,
    )
