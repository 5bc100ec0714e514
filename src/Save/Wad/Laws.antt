-- ===== src/Save/Wad/Laws.antt =====
-- The fixed-point operations never panic, and are exact up to rounding down.
use native.Mathlib.Nat.{le-div_iff_mul-le, mul-le-mul_left}
use overpass_titan_venue.Base.{ℕ, ◌*◌, ◌/◌, ◌^◌, ◌≤◌, ◌<◌, ◌≡◌, refl, arith, some, IsU128}
use overpass_titan_venue.Base.Arith.{mul-lt_256}
use overpass_titan_venue.Base.Safe.{Safe, Safe-ok_or, Safe-or_panic->>=, Safe-fail_if}
use overpass_titan_venue.Uint.{Uint, IsUint}
use overpass_titan_venue.Common.Checked.Laws.{NotLoss}
use overpass_titan_venue.Save.Wad.{wad, wad_mul, wad_div}

-- A number of the scale that is at least one.
abbrev pub IsFactor : ℕ → Type 0
IsFactor r = (r < 2 ^ 128) × (wad ≤ r)

-- Scaling by a factor of at least one, rounded down, does not decrease.
pub le-wad_mul : (a b : ℕ) → wad ≤ a → b ≤ b * a / wad
le-wad_mul a b h =
    (le-div_iff_mul-le {k = wad} {x = b} {y = b * a} (omega arith)).1 (mul-le-mul_left b h)

module _ ⦃u : Uint⦄ (laws : IsUint u) where
  pub to_u128-fits : (n r : ℕ) → u.to_u128 n ≡ some r → (r < 2 ^ 128) × (r ≡ n)
  to_u128-fits n r h = ground (arith, laws.to_u128_lem n, laws.to_u128_large n)

  pub wad_mul-Safe :
      (a b : ℕ)
      → IsU128 a
      → IsU128 b
      → Safe (λ r. (r < 2 ^ 128) × (r ≡ a * b / wad)) NotLoss (wad_mul a b)
  unfolding wad_mul
  wad_mul-Safe a b ha hb = Safe-or_panic->>= _ _ (laws.mul_lem a b (mul-lt_256 ha hb)) (
      Safe-or_panic->>= _ _ (laws.div_lem (a * b) wad (omega arith))
        (Safe-ok_or _ _ refl λ r hr. to_u128-fits _ r hr))

  pub wad_div-Safe :
      (a b : ℕ)
      → IsU128 a
      → Safe (λ r. (r < 2 ^ 128) × (0 < b) × (r ≡ a * wad / b)) NotLoss (wad_div a b)
  unfolding wad_div
  wad_div-Safe a b ha = Safe-fail_if _ _ _ refl λ nz.
      let pos : 0 < b = ground arith in
      Safe-or_panic->>= _ _ (laws.mul_lem a wad (mul-lt_256 ha (omega arith))) (
        Safe-or_panic->>= _ _ (laws.div_lem (a * wad) b pos)
          (Safe-ok_or _ _ refl λ r hr. let fits = to_u128-fits _ r hr in (fits.0, pos, fits.1)))
