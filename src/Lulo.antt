-- ===== src/Lulo.antt =====
-- `src/your_venue/lulo`: pools of Lulo.
pub mod State
pub mod Math
