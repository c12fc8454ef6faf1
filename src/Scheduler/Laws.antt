-- ===== src/Scheduler/Laws.antt =====
-- What holds of observations and submissions.
pub mod Honest
pub mod HonestLsf
pub mod Observations
pub mod Submissions
pub mod Cancellations
