-- ===== src/Resolver.antt =====
-- resolver.py: the candidates for a workload on an inventory, and the choice among them.
pub mod Models
pub mod Numbers
pub mod Direct
pub mod Scheduled
pub mod Candidates
pub mod Selection
pub mod Laws
mod Tests
