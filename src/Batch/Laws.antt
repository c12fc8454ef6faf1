-- ===== src/Batch/Laws.antt =====
-- What the batch scripts of backends.py guarantee.
pub mod Amounts
pub mod Requests
pub mod Mounts
pub mod Lines
pub mod Directives
pub mod Marks
pub mod Markers
pub mod Scripts
pub mod Rendered
pub mod Walltime
