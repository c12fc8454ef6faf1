-- ===== src/Requests.antt =====
-- execution_request.py: requests for executions, from a JSON document or from a command line.
-- Messages leave out what they quote of the document.
pub mod Values
pub mod Amounts
pub mod Models
pub mod Parse
pub mod Document
pub mod Laws
mod Tests
