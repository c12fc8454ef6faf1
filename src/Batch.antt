-- ===== src/Batch.antt =====
-- backends.py: the batch script that a scheduler runs for a plan.
pub mod Amounts
pub mod Slurm
pub mod Pbs
pub mod Lsf
pub mod Script
pub mod Laws
mod Tests
