-- ===== src/Planning.antt =====
-- planning_models.py: resource shapes and executions in containers.
pub mod Shape
pub mod Container
