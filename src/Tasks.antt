-- ===== src/Tasks.antt =====
-- The tasks that the queue runs again and again: scheduler/models/task.py.
pub mod Model
pub mod Times
pub mod Ready
pub mod Rows
pub mod Saving
pub mod Settled
pub mod Scheduling
pub mod Callbacks
pub mod Running
mod Examples
