-- ===== src/Handlers.antt =====
-- internal/coordinator/handlers: what the coordinator does with each message.
pub mod States
pub mod Pending
pub mod Cancel
pub mod Fire
pub mod Jobs
pub mod Completed
pub mod Errors
pub mod Started
pub mod Heartbeats
pub mod Progress
pub mod Schedule
