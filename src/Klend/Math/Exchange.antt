-- ===== src/Klend/Math/Exchange.antt =====
-- The exchange of liquidity and collateral of `src/your_venue/klend/math.rs`: its bounds, and why
-- the check that a deposit takes no more than the net amount never fails.
use native.Mathlib.Nat.{div-mul-le_self, mul-le-mul, mul-le-mul_right, le_trans}
use mathlib.Core.Path.{subst}
use overpass_titan_venue.Base.{
  ℕ, ◌+◌, ◌-◌, ◌*◌, ◌/◌, ◌^◌, ◌≤◌, ◌<◌, ◌≡◌, refl, arith, IsU64, IsU128, ok, some, Option-cases,
  TradingVenueError, inl, inr, checked_mul, u128_max, ok_or,
}
use overpass_titan_venue.Base.Arith.{mul-lt_256, le-ceil-mul, ceil-le}
use overpass_titan_venue.Base.Safe.{
  Safe, Safe-ok, Safe-ok_or->>=, Safe-some->>=, Safe-pass, Safe-or_panic->>=, Safe-fail_if,
  Safe-weaken,
}
use overpass_titan_venue.Uint.{Uint, IsUint}
use overpass_titan_venue.Common.Checked.Laws.{NotLoss, u128_to_u64-Safe}
use overpass_titan_venue.Common.Checked.{u128_to_u64}
use overpass_titan_venue.Klend.Fixed.{Fixed, IsFixed}
use overpass_titan_venue.Klend.Fraction.{checked_shl, big_from_num, big_div, try_into_fraction}
use overpass_titan_venue.Klend.Math.{
  liquidity_to_collateral, collateral_to_liquidity, collateral_to_liquidity_ceil,
}

module _ ⦃u : Uint⦄ ⦃f : Fixed⦄ (laws : IsUint u) (fixed : IsFixed f) where
  to_u128-fits : (n r : ℕ) → u.to_u128 n ≡ some r → (r < 2 ^ 128) × (r ≡ n)
  to_u128-fits n r h = ground (arith, laws.to_u128_lem n, laws.to_u128_large n)

  checked_mul_lem : (a b p : ℕ) → checked_mul u128_max a b ≡ some p → p ≡ a * b
  checked_mul_lem a b p h = ground arith

  -- A shift that loses no bits is a product.
  checked_shl_lem : (n r : ℕ) → checked_shl n 60 ≡ some r → (r ≡ n * 2 ^ 60) × (r < 2 ^ 256)
  unfolding checked_shl
  checked_shl_lem n r e =
      let up = laws.shl_lem n 60 in
      let down = laws.shr_lem (u.shl n 60) 60 in
      let there : (r ≡ u.shl n 60) × (u.shr (u.shl n 60) 60 ≡ n) = ground arith in
      omega (arith, up, down, there.0, there.1)

  -- `x` of liquidity for `c` units of collateral, rounded down, where `ts` bits of supply stand
  -- against `cs` units.
  pub collateral_to_liquidity-Safe :
      (c cs ts : ℕ)
      → IsU64 c
      → IsU128 ts
      → Safe
          (λ x. (x < 2 ^ 64) × (0 < cs) × (x ≡ c * ts / cs / 2 ^ 60))
          NotLoss
          (collateral_to_liquidity c cs ts)
  unfolding collateral_to_liquidity
  collateral_to_liquidity-Safe c cs ts hc ht = Safe-fail_if _ _ _ refl λ nz.
      Safe-ok_or->>= _ _ _ refl λ p hp.
        let ep : p ≡ c * ts =
          ground (arith, laws.mul?_lem c ts (mul-lt_256 {a = c} {b = ts} (omega arith) ht)) in
        Safe-or_panic->>= _ _ (laws.div_lem p cs (ground arith)) (
          Safe-ok_or->>= _ _ _ refl λ b hb.
            let fb = to_u128-fits _ b hb in
            Safe-or_panic->>= _ _ (fixed.floor_lem b) (
              Safe-or_panic->>= _ _ (fixed.to_num_lem _ (b / 2 ^ 60 * 2 ^ 60) (omega arith)) (
                Safe-weaken _ (u128_to_u64-Safe _) λ x _ fx.
                  let eb : b ≡ c * ts / cs = rw (← ep) fb.1 in (fx.0, ground arith, omega arith))))

  u128_to_u64_small :
      {P : ℕ → Type 0} {E : TradingVenueError → Type 0} (v : ℕ)
      → v < 2 ^ 64
      → P v
      → Safe P E (u128_to_u64 v)
  unfolding u128_to_u64 ok_or
  u128_to_u64_small v h p =
      let known : ok v ≡ u128_to_u64 v = ground arith in subst (Safe _ _) known (Safe-ok v p)

  -- What a deposit has to bring for `c` units: rounded up twice. Where the units are worth no more
  -- than `l` there is no error.
  pub collateral_to_liquidity_ceil-Safe :
      {E : TradingVenueError → Type 0} (c cs ts l : ℕ)
      → IsU64 c
      → IsU64 l
      → IsU128 cs
      → IsU128 ts
      → 0 < cs
      → c * ts ≤ l * 2 ^ 60 * cs
      → Safe (λ d. (d ≤ l) × (c * ts ≤ d * 2 ^ 60 * cs)) E (collateral_to_liquidity_ceil c cs ts)
  unfolding collateral_to_liquidity_ceil
  collateral_to_liquidity_ceil-Safe c cs ts l hc hl hcs ht pos fair =
      let n = c * ts + (cs - 1) in
      let b = n / cs in
      let d = (b + (2 ^ 60 - 1)) / 2 ^ 60 in
      let small : c * ts < 2 ^ 192 = omega (
        arith,
        mul-le-mul {n₁ = c} {m₁ = ts} {n₂ = 2 ^ 64 - 1} {m₂ = 2 ^ 128 - 1} (omega arith)
            (omega arith),
      ) in
      let lo : c * ts ≤ b * cs = le-ceil-mul (c * ts) cs pos in
      let hi : b ≤ l * 2 ^ 60 = ceil-le (c * ts) cs (l * 2 ^ 60) pos fair in
      let up : b ≤ d * 2 ^ 60 = omega arith in
      let below : d ≤ l = omega (arith, hi) in
      Safe-pass _ _ _ (ground arith) (
        Safe-some->>= _ _ _ (laws.mul?_lem c ts (omega (arith, small))) (
          Safe-or_panic->>= _ _ (laws.sub_lem cs 1 pos) (
            Safe-some->>= _ _ _ (laws.add?_lem (c * ts) (cs - 1) (omega (arith, small))) (
              Safe-or_panic->>= _ _ (laws.div_lem n cs pos) (
                Safe-some->>= _ _ _ (laws.to_u128_lem b (omega (arith, hi))) (
                  Safe-or_panic->>= _ _ (fixed.ceil_lem b (omega (arith, below))) (
                    Safe-or_panic->>= _ _ (fixed.to_num_lem _ (d * 2 ^ 60) (omega (arith, below))) (
                      rw (mul-div_60 d) (
                        u128_to_u64_small d (omega (arith, below))
                          (below, le_trans lo (mul-le-mul_right cs up)))))))))))
    where
      mul-div_60 : (d : ℕ) → d * 2 ^ 60 / 2 ^ 60 ≡ d
      mul-div_60 d = omega arith

  big_div_lem : (a b q : ℕ) → big_div a b ≡ some q → (0 < b) × (q ≡ a * 2 ^ 60 / b)
  unfolding big_div
  big_div_lem a b q e = elim (Option-cases (checked_shl a 60)) [
    | inl h ↦ absurd (ground (arith, h))
    | inr (s, h) ↦
        let pos : 0 < b = ground arith in
        let es : s ≡ a * 2 ^ 60 = (checked_shl_lem a s h).0 in
        let eq : u.div s b ≡ some q = ground (arith, h) in
        let there : q ≡ s / b = ground (arith, laws.div_lem s b pos) in (pos, rw (← es) there)
  ]

  -- Collateral for `x` of liquidity, rounded down, never worth more than that.
  pub liquidity_to_collateral-Safe :
      (x cs ts : ℕ)
      → IsU64 x
      → IsU128 cs
      → Safe
          (λ c. (c < 2 ^ 64) × (0 < ts) × (c * ts ≤ x * 2 ^ 60 * cs))
          NotLoss
          (liquidity_to_collateral x cs ts)
  unfolding liquidity_to_collateral big_from_num big_div try_into_fraction
  liquidity_to_collateral-Safe x cs ts hx hcs = Safe-ok_or->>= _ _ _ refl λ lhs hl.
      Safe-ok_or->>= _ _ _ refl λ big hb. Safe-ok_or->>= _ _ _ refl λ q hq.
        Safe-ok_or->>= _ _ _ refl λ fr hf. Safe-or_panic->>= _ _ (fixed.floor_lem fr) (
          Safe-or_panic->>= _ _ (fixed.to_num_lem _ _ (omega (arith, (to_u128-fits q fr hf).0))) (
            Safe-weaken _ (u128_to_u64-Safe _) λ c _ fc.
              let fq = big_div_lem big ts q hq in
              let eb : big ≡ cs * x * 2 ^ 60 =
                omega (arith, (checked_shl_lem lhs big hb).0, checked_mul_lem cs x lhs hl) in
              let below : c * 2 ^ 60 ≤ q = omega (arith, fc.1, (to_u128-fits q fr hf).1) in
              let scaled : c * 2 ^ 60 * ts ≤ q * ts = mul-le-mul_right ts below in
              let quot : q * ts ≤ big * 2 ^ 60 = rw fq.1 (div-mul-le_self (big * 2 ^ 60) ts) in
              (fc.0, fq.0, omega (arith, eb, scaled, quot))))

  -- With a positive supply of collateral, all numbers within their widths, and the documented laws of
  -- `U256` and of the fractions: where `x` of liquidity brings `c` units, what those units cost is computed without a panic or
  -- an error, is at most `x`, and covers their value. So the check of a deposit that it does not
  -- exceed the net amount never fails.
  pub collateral_to_liquidity_ceil-liquidity_to_collateral :
      (x cs ts c : ℕ)
      → IsU64 x
      → IsU128 cs
      → IsU128 ts
      → 0 < cs
      → liquidity_to_collateral x cs ts ≡ ok c
      → Safe
          (λ d. (d ≤ x) × (c * ts ≤ d * 2 ^ 60 * cs))
          (λ _. ⊥)
          (collateral_to_liquidity_ceil c cs ts)
  collateral_to_liquidity_ceil-liquidity_to_collateral x cs ts c hx hcs ht pos there =
      let (fc, _, fair) = (liquidity_to_collateral-Safe x cs ts hx hcs).result c there in
      collateral_to_liquidity_ceil-Safe c cs ts x fc hx hcs ht pos fair
