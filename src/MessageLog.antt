-- ===== src/MessageLog.antt =====
-- message_log.py: the AMT event log. `Tables` and `Decode` are the decoding of one record,
-- `Container` and `Read` the calls, and the other children what is proved of them.
pub mod Tables
pub mod Decode
pub mod Container
pub mod Read
pub mod RoundTrip
pub mod Faithful
pub mod Heard
pub mod Complete
pub mod Slots
pub mod Balance
pub mod Accounting
pub mod Filter
pub mod Calls
pub mod Rounds
pub mod Ends
pub mod Endless
pub mod Available
mod Tests
