-- ===== src/Scheduler.antt =====
-- The scheduler backends of backends.py: what they observe of one job, and its submission.
pub mod Observation
pub mod Families
pub mod LsfJob
pub mod Submission
pub mod Cancellation
pub mod Laws
mod Tests
