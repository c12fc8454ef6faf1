-- ===== src/Outcomes/Laws.antt =====
-- What holds of verification runs and telemetry summaries.
pub mod Waits
pub mod Verdicts
pub mod Runs
pub mod Records
