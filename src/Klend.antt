-- ===== src/Klend.antt =====
-- `src/your_venue/klend`: reserves of Klend.
pub mod Fixed
pub mod Fraction
pub mod Caps
pub mod State
pub mod Accrual
pub mod Math
pub mod Samples
