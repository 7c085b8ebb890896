-- ===== src/Queue.antt =====
-- app/services/queue.py: the run queue. Each operation is a module; its proofs are in the modules
-- below it.
pub mod Insert
pub mod Due
pub mod Enqueue
pub mod Claim
pub mod Lease
pub mod Retry
pub mod Samples
mod Examples
