-- ===== src/Boot.antt =====
-- boot.py: arming a one-time boot, and the theorems about it.
pub mod Plan
pub mod Discovery
pub mod Settings
pub mod Arm
pub mod Fields
pub mod Order
pub mod Mutations
pub mod Advertised
pub mod Supported
mod Tests
