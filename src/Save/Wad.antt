-- ===== src/Save/Wad.antt =====
-- `src/your_venue/save/wad.rs`: numbers scaled by 10^18, of type `u128`.
pub mod Laws
pub mod Power
use overpass_titan_venue.Base.{
  ℕ, zero, suc, ◌+◌, ◌-◌, ◌*◌, ◌/◌, ◌%◌, ◌^◌, Outcome, ok, err, panic, ◌>>=◌, ◌>>◌, ok_or, or_panic,
  fail_if, true, false, math_error, ◌==◌, if◌then◌else◌, saturating_mul, saturating_add, u128_max,
}
use overpass_titan_venue.Uint.{Uint}

abbrev pub wad : ℕ
wad = 1_000_000_000_000_000_000

abbrev pub slots_per_year : ℕ
slots_per_year = 63_072_000

unfoldable pub from_u64 : ℕ → ℕ
from_u64 amount = saturating_mul u128_max amount wad

unfoldable pub from_percent : ℕ → ℕ
from_percent pct = saturating_mul u128_max pct (wad / 100)

-- The cast `as u64` keeps the low 64 bits.
unfoldable pub to_floor_u64 : ℕ → ℕ
to_floor_u64 w = w / wad % 2 ^ 64

unfoldable pub wad_mul : ⦃u : Uint⦄ → ℕ → ℕ → Outcome ℕ
wad_mul ⦃u⦄ a b = do
  product ← or_panic (u.mul a b)
  scaled ← or_panic (u.div product wad)
  ok_or (u.to_u128 scaled) (math_error "wad_mul overflow")

unfoldable pub wad_div : ⦃u : Uint⦄ → ℕ → ℕ → Outcome ℕ
wad_div ⦃u⦄ a b = do
  fail_if (b == 0) (math_error "wad_div by zero")
  scaled ← or_panic (u.mul a wad)
  quot ← or_panic (u.div scaled b)
  ok_or (u.to_u128 quot) (math_error "wad_div overflow")

-- The loop of `wad_pow`, on the exponent, the base and the product so far.
unfoldable pub wad_pow_loop : ⦃u : Uint⦄ → ℕ → ℕ → ℕ → ℕ → Outcome ℕ
unfolding wad_mul
wad_pow_loop zero exponent base ret = panic
wad_pow_loop (suc fuel) exponent base ret =
    let rest = (do
      base' ← wad_mul base base
      ret' ← (if exponent / 2 % 2 == 0 then ok ret else wad_mul ret base')
      wad_pow_loop fuel (exponent / 2) base' ret') in
    if exponent / 2 == 0 then ok ret else rest

-- An exponent of 64 bits is 0 after 64 halvings.
abbrev pub pow_fuel : ℕ
pow_fuel = 64

unfoldable pub wad_pow : ⦃u : Uint⦄ → ℕ → ℕ → Outcome ℕ
unfolding wad_pow_loop
wad_pow base exponent =
    wad_pow_loop pow_fuel exponent base (if exponent % 2 == 0 then wad else base)
