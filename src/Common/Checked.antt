-- ===== src/Common/Checked.antt =====
-- `src/your_venue/common/checked.rs`.
pub mod Laws
use overpass_titan_venue.Base.{
  ℕ, ◌*◌, ◌/◌, ◌^◌, Outcome, ok, err, ◌>>=◌, ◌>>◌, ok_or, or_panic, fail_if, math_error, ltb, ◌==◌,
  ◌||◌, if◌then◌else◌, checked_mul, checked_div, try_from, u64_max, u128_max,
}
use overpass_titan_venue.Uint.{Uint}

abbrev pub full_bps : ℕ
full_bps = 10000

unfoldable pub require_no_value_per_share_loss : ⦃u : Uint⦄ → ℕ → ℕ → ℕ → ℕ → Outcome (Unit {0})
require_no_value_per_share_loss ⦃u⦄ old_value old_supply new_value new_supply =
    if old_supply == 0 || new_supply == 0 then ok tt else (do
      lhs ← or_panic (u.mul new_value old_supply)
      rhs ← or_panic (u.mul old_value new_supply)
      fail_if (ltb lhs rhs) (math_error "value per share decreased"))

unfoldable pub mul_div_u64 : ℕ → ℕ → ℕ → Outcome ℕ
mul_div_u64 a b denom = do
  prod ← ok_or (checked_mul u128_max a b) (math_error "mul_div_u64 mul")
  quot ← ok_or (checked_div prod denom) (math_error "mul_div_u64 div")
  ok_or (try_from u64_max quot) (math_error "mul_div_u64 fit")

unfoldable pub u128_to_u64 : ℕ → Outcome ℕ
u128_to_u64 v = ok_or (try_from u64_max v) (math_error "u128_to_u64 fit")

unfoldable pub mul_bps : ℕ → ℕ → Outcome ℕ
unfolding mul_div_u64
mul_bps amount bps = mul_div_u64 amount bps full_bps
