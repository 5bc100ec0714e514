-- ===== src/Save.antt =====
-- The Save (Solend) adapter, `src/your_venue/save`: the fixed-point arithmetic of `wad.rs`, the
-- reserve of `state.rs`, the accrual and quotes of `math.rs`, and the
-- instructions of `mod.rs`.
pub mod Wad
pub mod State
pub mod Math
pub mod Instructions
