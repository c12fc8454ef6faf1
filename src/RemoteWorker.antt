-- ===== src/RemoteWorker.antt =====
-- remote_worker.py: the one-shot worker on the login node. Each operation is an action of
-- `RemoteWorker.Effects.Exec`, over the files and the scheduler of the machine.
pub mod Paths
pub mod Effects
pub mod State
pub mod Requests
pub mod Observation
pub mod Operations
pub mod Invocations
pub mod AtMostOnce
pub mod Replies
pub mod Retries
pub mod Existing
pub mod Verified
mod Tests
