-- ===== src/Wsman.antt =====
-- wsman.py: the WS-Man client. `Tree` is its XML, `Request` what it sends, `Transport` one exchange
-- with its retries, and `Operations` Get, Put, Enumerate and Invoke; the other children are what is
-- proved of them.
pub mod Tree
pub mod Request
pub mod Transport
pub mod Operations
pub mod Retries
pub mod Posts
pub mod Pulls
pub mod Outcomes
pub mod Params
pub mod ReturnValue
pub mod Refusals
pub mod Refines
mod Tests
