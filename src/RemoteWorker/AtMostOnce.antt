-- ===== src/RemoteWorker/AtMostOnce.antt =====
-- One scheduler submission at most for each staging directory, over every sequence of invocations.
pub mod Writes
pub mod Rules
pub mod Actions
pub mod Launch
pub mod Others
pub mod Prepare
pub mod Submissions
