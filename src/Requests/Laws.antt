-- ===== src/Requests/Laws.antt =====
-- What holds of requests and of the documents they are made from and written as.
pub mod Texts
pub mod Sections
pub mod Parts
pub mod Resources
pub mod Written
pub mod Checks
pub mod Accepted
pub mod Bounds
pub mod Small
pub mod Intents
pub mod Positive
pub mod Meant
pub mod RoundTrip
pub mod CommandLine
pub mod WellFormed
pub mod Walltimes
