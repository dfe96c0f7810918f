-- ===== src/Tls.antt =====
-- tls.py: `Policy` is what a connection may be trusted by, `Der` the reading of a certificate's bytes;
-- the other children are what is proved of them.
pub mod Policy
pub mod Der
pub mod Trust
pub mod Elements
mod Tests
