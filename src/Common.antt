-- ===== src/Common.antt =====
-- `src/your_venue/common`: reading accounts, checked arithmetic, the direction of a swap; and the
-- accounts of `src/your_venue/state.rs`.
pub mod Programs
pub mod Addresses
pub mod Bytes
pub mod Checked
pub mod State
pub mod Direction
mod Tests
