-- ===== src/Marginfi.antt =====
-- `src/your_venue/marginfi`: banks of Marginfi.
pub mod Signed
pub mod State
pub mod Rates
pub mod Math
