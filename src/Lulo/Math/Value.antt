-- ===== src/Lulo/Math/Value.antt =====
-- The profit, the fee and the value of a position of `src/your_venue/lulo/math.rs`: no panics,
-- and bounds.
use native.Mathlib.Nat.{div-mul-le_self, mul-le-mul_right, le_trans}
use overpass_titan_venue.Base.{
  ℕ, ◌-◌, ◌*◌, ◌/◌, ◌^◌, ◌≤◌, ◌<◌, ◌≡◌, refl, arith, IsU64, IsU128, ok, leb, ◌==◌, ◌||◌,
  if◌then◌else◌, or_panic, some, checked_mul, checked_div, u128_max,
}
use overpass_titan_venue.Base.Arith.{mul-lt_256}
use overpass_titan_venue.Base.Safe.{
  Safe, Safe-ok, Safe-ok_or, Safe-ok_or->>=, Safe-or_panic->>=, Safe-if, Safe-weaken, Safe->>=,
}
use overpass_titan_venue.Uint.{Uint, IsUint}
use overpass_titan_venue.Common.Checked.Laws.{NotLoss}
use overpass_titan_venue.Shares.{and_then}
use overpass_titan_venue.Lulo.Math.{min, cpos, fee_from_profit, position_fee_usdc, lulo_lp_value}

pub ratio_lem :
    (a b d q : ℕ)
    → and_then (checked_mul u128_max a b) (λ x. checked_div x d) ≡ some q
    → (0 < d) × (q ≡ a * b / d)
ratio_lem a b d q h = ground arith

pub min-le : (a b : ℕ) → min a b ≤ b
min-le a b = ground arith

pub fee_from_profit-Safe :
    (profit bps : ℕ) → Safe (λ r. r * 10000 ≤ profit * bps) NotLoss (fee_from_profit profit bps)
unfolding fee_from_profit
fee_from_profit-Safe profit bps = Safe-ok_or->>= _ _ _ refl λ pb hp. Safe-ok _ (ground arith)

module _ ⦃u : Uint⦄ (laws : IsUint u) where
  -- The profit of a position never exceeds its gross value, and is computed without a panic.
  pub cpos-Safe :
      (pa pts lp basis : ℕ)
      → IsU64 pa
      → IsU64 pts
      → IsU128 lp
      → IsU128 basis
      → Safe (λ r. r * pts ≤ pa * lp) NotLoss (cpos pa pts lp basis)
  unfolding cpos or_panic
  cpos-Safe pa pts lp basis ha hp hl hb =
      Safe-if (pts == 0 || pa == 0 || lp == 0) _ _ (λ _. Safe-ok 0 (omega arith))
        λ nz.
          let pos : 0 < pts = ground arith in
          rw (laws.shl_lem 1 60) (
            Safe-or_panic->>= _ _ (laws.mul_lem pa (2 ^ 60) (omega arith)) (
              Safe-or_panic->>= _ _ (laws.mul_lem basis pts (mul-lt_256 hb (omega arith))) (
                Safe->>= _ _ (gain (basis * pts)) λ g _ fg.
                  Safe-or_panic->>= _ _
                    (laws.mul_lem g lp (mul-lt_256 {a = g} {b = lp} (omega arith) hl))
                    (Safe-or_panic->>= _ _ (laws.mul_lem pts (2 ^ 60) (omega arith)) (
                      Safe-or_panic->>= _ _ (laws.div_lem (g * lp) (pts * 2 ^ 60) (omega arith)) (
                        Safe-ok_or _ _ refl λ r hr.
                          let er : r ≤ g * lp / (pts * 2 ^ 60) =
                            ground (arith, laws.low_u128_lem (g * lp / (pts * 2 ^ 60))) in
                          let quot = div-mul-le_self (g * lp) (pts * 2 ^ 60) in
                          let scaled : r * (pts * 2 ^ 60) ≤ g * lp =
                            le_trans (mul-le-mul_right (pts * 2 ^ 60) er) quot in
                          let capped : g * lp ≤ pa * 2 ^ 60 * lp = mul-le-mul_right lp fg in
                          omega (arith, scaled, capped)))))))
    where
      gain :
          (bp : ℕ)
          → Safe
              (λ g. g ≤ pa * 2 ^ 60)
              NotLoss
              (if leb (pa * 2 ^ 60) bp then ok 0 else or_panic (u.sub (pa * 2 ^ 60) bp))
      gain bp =
          Safe-if (leb (pa * 2 ^ 60) bp) _ _ (λ _. Safe-ok 0 (omega arith))
            λ h.
              let known : u.sub (pa * 2 ^ 60) bp ≡ some (pa * 2 ^ 60 - bp) =
                laws.sub_lem (pa * 2 ^ 60) bp (ground arith) in
              rw known (Safe-ok _ (omega arith))

  pub position_fee_usdc-Safe :
      (pa pts lp_a old charged avg bps : ℕ)
      → IsU64 pa
      → IsU64 pts
      → IsU128 lp_a
      → IsU128 old
      → IsU128 charged
      → IsU128 avg
      → Safe
          (λ r. r * 10000 * pts ≤ pa * old * bps)
          NotLoss
          (position_fee_usdc pa pts lp_a old charged avg bps)
  unfolding position_fee_usdc
  position_fee_usdc-Safe pa pts lp_a old charged avg bps ha hp hla ho hc hv =
      Safe->>= _ _ (cpos-Safe pa pts lp_a charged ha hp hla hc) λ a _ _.
        Safe->>= _ _ (cpos-Safe pa pts old avg ha hp ho hv) λ b _ fb.
          Safe-weaken _ (fee_from_profit-Safe _ bps) λ r _ fr.
            let low : r * 10000 ≤ b * bps = le_trans fr (mul-le-mul_right bps (min-le a b)) in
            let scaled : r * 10000 * pts ≤ b * bps * pts = mul-le-mul_right pts low in
            let profit : b * pts * bps ≤ pa * old * bps = mul-le-mul_right bps fb in
            omega (arith, scaled, profit)

  -- The value of a position fits 64 bits and is at most its share of the pool.
  pub lulo_lp_value-Safe :
      (pa pts old charged avg bps : ℕ)
      → IsU64 pa
      → IsU64 pts
      → IsU128 old
      → IsU128 charged
      → IsU128 avg
      → Safe
          (λ v. (v < 2 ^ 64) × (v * pts ≤ old * pa))
          NotLoss
          (lulo_lp_value pa pts old charged avg bps)
  unfolding lulo_lp_value
  lulo_lp_value-Safe pa pts old charged avg bps ha hp ho hc hv =
      Safe-if (pts == 0 || pa == 0 || old == 0) _ _ (λ _. Safe-ok 0 (omega arith, omega arith))
        λ nz.
          Safe->>= _ _ (position_fee_usdc-Safe pa pts old old charged avg bps ha hp ho ho hc hv)
            λ fee _ _. Safe-ok_or->>= _ _ _ refl λ q hq. Safe-ok_or->>= _ _ _ refl λ g hg.
              let fq = ratio_lem old pa pts q hq in
              let quot : q * pts ≤ old * pa = rw fq.1 (div-mul-le_self (old * pa) pts) in
              let eg : g ≤ q = ground arith in
              let below : g - fee ≤ q = omega (arith, eg) in
              Safe-ok _ (ground arith, le_trans (mul-le-mul_right pts below) quot)
