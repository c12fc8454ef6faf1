-- ===== src/Outcomes.antt =====
-- execution_outcomes.py: the verification of outputs and the telemetry of a recorded run.
pub mod Models
pub mod Verification
pub mod Telemetry
pub mod Laws
pub mod Persisted
mod Tests
