-- ===== src/Queue.antt =====
-- The durable run queue: backend/src/ops_composer/repositories/runs.py, and `WorkerCoordinator` and a
-- part of `RunService` of backend/src/ops_composer/services/runs.py.
pub mod Store
pub mod Claim
pub mod Lifecycle
pub mod Events
pub mod HostLocks
pub mod Fifo
pub mod Settled
pub mod Keeps
pub mod Ends
pub mod Creates
pub mod Coordinator
pub mod Service
pub mod Cancels
pub mod Submit
pub mod Idempotent
pub mod Confirmed
pub mod Replays
pub mod Stored
pub mod Steps
pub mod Moves
pub mod Machine
pub mod Once
pub mod Reports
pub mod Released
pub mod Sequence
mod Examples
mod OnceExamples
mod SubmitExamples
