-- ===== src/Jobs.antt =====
-- The job queue: scheduler/redis_models and scheduler/helpers/queues.
pub mod Model
pub mod Broker
pub mod Job
pub mod Queue
pub mod Store
pub mod Memory
pub mod Registries
pub mod Cleaning
pub mod Examples
mod RegistryExamples
