-- ===== src/Resolver/Laws.antt =====
-- What the resolver of resolver.py guarantees.
pub mod Direct
pub mod Scheduled
pub mod Offers
pub mod Choices
pub mod Preference
pub mod Sole
pub mod Conditions
