-- ===== src/Broker.antt =====
-- The package broker: the names of queues and topics.
pub mod Queues
pub mod InMemory
