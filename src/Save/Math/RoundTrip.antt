-- ===== src/Save/Math/RoundTrip.antt =====
-- Going to collateral and back at one rate, and depositing and withdrawing at once.
use native.Mathlib.Nat.{le_of_mul-le-mul_right}
use overpass_titan_venue.Base.{ℕ, ◌≤◌, ◌<◌, ◌≡◌, ok, arith, IsU64, IsU128}
use overpass_titan_venue.Uint.{Uint, IsUint}
use overpass_titan_venue.Save.Math.{liquidity_to_collateral, collateral_to_liquidity}
use overpass_titan_venue.Save.Math.Quotes.{
  liquidity_to_collateral-Safe, collateral_to_liquidity-Safe,
}

module _ ⦃u : Uint⦄ (laws : IsUint u) where
  -- Liquidity that is turned into collateral and back at one positive rate does not grow.
  pub collateral_to_liquidity-liquidity_to_collateral :
      (x rate c y : ℕ)
      → IsU64 x
      → IsU128 rate
      → 0 < rate
      → liquidity_to_collateral x rate ≡ ok c
      → collateral_to_liquidity c rate ≡ ok y
      → y ≤ x
  collateral_to_liquidity-liquidity_to_collateral x rate c y hx hr pos there back =
      let (fc, le) = (liquidity_to_collateral-Safe laws x rate hx hr).result c there in
      let (_, le') = (collateral_to_liquidity-Safe laws c rate fc).result y back in
      le_of_mul-le-mul_right {m = y} {n = x} {k = rate} (omega arith) pos
