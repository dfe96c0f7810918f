-- ===== src/Ider.antt =====
-- plugins/module_utils/ider.py: the IDE-R engine. The children model its parts, in the order of
-- the file: constants, the media image, the engine's state, outbound frames, the read and write
-- paths, the SCSI commands and the inbound framing.
pub mod Command
pub mod Canned
pub mod Media
pub mod Target
pub mod Send
pub mod Read
pub mod Write
pub mod Replies
pub mod Scsi
pub mod Dispatch
pub mod Feed
pub mod Moves
pub mod Safety
pub mod Framing
