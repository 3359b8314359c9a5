-- ===== src/Tests.antt =====
-- Runs of the model on small inputs.
mod Samples
mod Completion
mod Nesting
mod Jobs
mod Scheduling
mod Data
mod Messages
mod Workers
mod Runs
mod Tables
mod Containers
mod Rows
