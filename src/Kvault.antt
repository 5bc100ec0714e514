-- ===== src/Kvault.antt =====
-- `src/your_venue/kvault`: vaults over several reserves of Klend.
pub mod State
pub mod Holdings
pub mod Math
