-- ===== src/Redirection.antt =====
-- redirection.py: the redirection transport, up to the point where a protocol engine takes over.
pub mod Session
pub mod Digest
pub mod Connect
pub mod Pin
pub mod Fill
pub mod Stream
pub mod Messages
pub mod Handshake
pub mod Fields
mod Tests
