-- ===== src/Tests.antt =====
-- Runs of the model on small inputs, at which each theorem is applied.
mod Fixtures
mod Store
mod Scheduler
mod FairShare
mod Admission
mod Capacity
mod Retry
mod Service
mod File
mod Inbox
mod Lifecycle
mod Filters
