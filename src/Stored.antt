-- ===== src/Stored.antt =====
-- The models that the broker keeps as hashes: scheduler/redis_models/base.py, and worker.py beside it.
pub mod Values
pub mod Hashes
pub mod Model
pub mod Sync
pub mod History
pub mod Names
pub mod Workers
mod Examples
mod WorkerExamples
