-- ===== src/Broker/InMemory.antt =====
-- broker/inmemory.go: queues that keep their messages until a subscriber takes them, and topics that
-- hand an event to every subscriber. A channel is a list; a send to a full one blocks.
use tork.Prelude.{
  ℕ, zero, suc, ◌+◌, ◌-◌, String, Bool, true, false, not, Option, none, some, List, [], ◌∷◌, ◌++◌,
  Dict, insert, length, ltb, str_eq, if◌then◌else◌,
}
use tork.Broker.Queues.{queue_heartbeat, queue_jobs, queue_logs, queue_progress}
use tork.Exec.{
  Message, task_message, job_message, event_message, schedule_message, heartbeat_message,
  log_message, progress_message,
}
use tork.Wildcard.{Bytes, match}
pub mod Fifo

abbrev pub default_queue_size : ℕ
default_queue_size = 1000

pub record Queue : Type 0 where
  pub ch : List Message
  pub subs : ℕ
  pub unacked : ℕ

-- `topics` leads from the name of a topic, which may have stars, to its number of subscribers.
pub record InMemoryBroker : Type 0 where
  pub queues : Dict Queue
  pub topics : Dict ℕ
  pub terminated : Bool

pub record QueueInfo : Type 0 where
  pub name : String
  pub size : ℕ
  pub subscribers : ℕ
  pub unacked : ℕ

abbrev pub new_queue : Queue
new_queue = record { ch = []; subs = 0; unacked = 0 }

-- The queue with a name, which is made when it is not there.
unfoldable pub queue_at : String → Dict Queue → Queue
queue_at qname [] = new_queue
queue_at qname ((k, q) ∷ rest) = if str_eq k qname then q else queue_at qname rest

-- `publish`, of a message that was copied; `none` is a sender that waits
unfoldable pub publish : String → Message → InMemoryBroker → Option InMemoryBroker
unfolding queue_at
publish qname m b =
    let q = queue_at qname b.queues in
    if ltb (length q.ch) default_queue_size
    then some (record b { queues = insert qname (record q { ch = q.ch ++ m ∷ [] }) b.queues })
    else none

-- The queue of a message.
unfoldable pub queue_of : Message → Option String
queue_of (task_message qname t) = some qname
queue_of (job_message j) = some queue_jobs
queue_of (heartbeat_message n) = some queue_heartbeat
queue_of (log_message p) = some queue_logs
queue_of (progress_message t) = some queue_progress
queue_of (event_message topic j) = none
queue_of (schedule_message topic s) = none

-- `subscribe`
unfoldable pub subscribe : String → InMemoryBroker → InMemoryBroker
unfolding queue_at
subscribe qname b =
    let q = queue_at qname b.queues in
    record b { queues = insert qname (record q { subs = q.subs + 1 }) b.queues }

-- A subscriber of a queue takes the message that waits longest.
unfoldable pub take_message : String → InMemoryBroker → Option (Message × InMemoryBroker)
unfolding queue_at
take_message qname b =
    let q = queue_at qname b.queues in
    elim q.ch [
      | [] ↦ none
      | m ∷ ms ↦ some (
        m,
        record b { queues = insert qname (record q { ch = ms; unacked = q.unacked + 1 }) b.queues },
      )
    ]

-- The subscriber is done with a message, with an error or without.
unfoldable pub finish : String → InMemoryBroker → InMemoryBroker
unfolding queue_at
finish qname b =
    let q = queue_at qname b.queues in
    record b { queues = insert qname (record q { unacked = q.unacked - 1 }) b.queues }

infos : Dict Queue → List QueueInfo
infos [] = []
infos ((k, q) ∷ rest) =
    record { name = k; size = length q.ch; subscribers = q.subs; unacked = q.unacked } ∷ infos rest

-- `Queues`
unfoldable pub queues : InMemoryBroker → List QueueInfo
unfolding infos
queues b = infos b.queues

subscribers_of : String → Dict ℕ → ℕ
subscribers_of name [] = 0
subscribers_of name ((k, n) ∷ rest) = if str_eq k name then n else subscribers_of name rest

-- `SubscribeForEvents`
unfoldable pub subscribe_for_events : String → InMemoryBroker → InMemoryBroker
unfolding subscribers_of
subscribe_for_events topic b = record b {
  topics = insert topic (subscribers_of topic b.topics + 1) b.topics;
}

-- `PublishEvent`: the topics that get the event, each with the number of those who see it. `bytes` are
-- those of a text.
unfoldable pub publish_event : (String → Bytes) → String → Dict ℕ → Dict ℕ
publish_event bytes topic_name [] = []
publish_event bytes topic_name ((name, n) ∷ topics) =
    let rest = publish_event bytes topic_name topics in
    if match (bytes name) (bytes topic_name) then (name, n) ∷ rest else rest

-- `Shutdown` and `HealthCheck`
unfoldable pub shutdown : InMemoryBroker → InMemoryBroker
shutdown b = record b { terminated = true }

unfoldable pub is_healthy : InMemoryBroker → Bool
is_healthy b = not b.terminated
