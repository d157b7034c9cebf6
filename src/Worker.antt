-- ===== src/Worker.antt =====
-- The worker of scheduler/worker/worker.py: its names, the order of its queues, and its jobs.
pub mod Naming
pub mod Rotation
pub mod Turns
pub mod Perform
pub mod Outcome
pub mod Monitor
pub mod Scheduler
pub mod Due
pub mod Commands
pub mod Locks
pub mod Exclusion
pub mod Heartbeat
pub mod Waiting
pub mod Loop
mod Examples
mod WaitingExamples
