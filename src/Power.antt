-- ===== src/Power.antt =====
-- client.py: power control and facts. `Request` is the power state and the request with its probes,
-- `Facts` the reads of single facts, `Gather` all of them, and the other children what is proved of
-- them.
pub mod Request
pub mod Facts
pub mod Gather
pub mod Gathering
pub mod Calls
pub mod Receipts
pub mod Returns
pub mod Wire
mod Tests
