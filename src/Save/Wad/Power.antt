-- ===== src/Save/Wad/Power.antt =====
-- The power of `src/your_venue/save/wad.rs`, whose products are rounded down, against simple and
-- compound growth.
use native.Mathlib.Nat.{
  div-mul-le_self, mul-le-mul, le_of_mul-le-mul_right, pow-suc, pow-zero, le-div_iff_mul-le,
  mul-le-mul_left, mul-le-mul_right, pow-le-pow_left,
}
use overpass_titan_venue.Base.{
  ℕ, zero, suc, ◌+◌, ◌-◌, ◌*◌, ◌/◌, ◌%◌, ◌^◌, ◌≤◌, ◌<◌, ◌≡◌, refl, ap, ok, arith, ◌==◌,
  if◌then◌else◌, IsU128, IsU64, math_error, TradingVenueError, Bool, true, false,
}
use overpass_titan_venue.Base.Arith.{mul-lt_256}
use overpass_titan_venue.Base.Safe.{
  Safe, Safe-ok, Safe-ok_or_when, Safe-or_panic->>=, Safe->>=, Safe-if, Safe-weaken,
  Safe-weaken_error,
}
use overpass_titan_venue.Uint.{Uint, IsUint}
use overpass_titan_venue.Common.Checked.Laws.{NotLoss}
use overpass_titan_venue.Save.Wad.{wad, wad_mul, wad_pow_loop, wad_pow}
use overpass_titan_venue.Save.Wad.Laws.{IsFactor, to_u128-fits}

-- `x` is at least the simple growth of `b` over `n` periods and at most the compound growth
-- `b ^ n`, both as numbers of the scale.
pub record IsBetween (b n x : ℕ) : Type 0 where
  pub simple : wad + n * (b - wad) ≤ x
  pub compound : x * wad ^ n ≤ wad * b ^ n

-- An overflow that is told as such: the compound growth itself leaves 128 bits.
pub record IsTooLarge (b n : ℕ) (e : TradingVenueError) : Type 0 where
  pub is_told : e ≡ math_error "wad_mul overflow"
  pub too_large : 2 ^ 128 * wad ^ n ≤ wad * b ^ n

pow-add : (b j k : ℕ) → b ^ (j + k) ≡ b ^ j * b ^ k
pow-add b j zero =
    let same : j + 0 ≡ j = omega arith in
    rw same (omega (arith, ap (λ (t : ℕ). b ^ j * t) (pow-zero b)))
pow-add b j (suc k) =
    let same : j + suc k ≡ suc (j + k) = omega arith in
    rw same (
      omega (
        arith,
        pow-suc b (j + k),
        ap (λ (t : ℕ). b ^ j * t) (pow-suc b k),
        ap (λ (t : ℕ). t * b) (pow-add b j k),
      ))

simple-mul : (w a c x y : ℕ) → 0 < w → w + a ≤ x → w + c ≤ y → w + (a + c) ≤ x * y / w
simple-mul w a c x y pos hx hy =
    (le-div_iff_mul-le {k = w} {x = w + (a + c)} {y = x * y} pos).1
      (omega (arith, mul-le-mul {n₁ = w + a} {m₁ = w + c} {n₂ = x} {m₂ = y} hx hy))

-- `p` and `q` are the powers of the scale, `d` and `e` those of the factor.
compound-mul :
    (w p q d e x y : ℕ) → 0 < w → x * p ≤ w * d → y * q ≤ w * e → x * y / w * (p * q) ≤ w * (d * e)
compound-mul w p q d e x y pos hx hy =
    le_of_mul-le-mul_right {m = x * y / w * (p * q)} {n = w * (d * e)} {k = w}
      (omega (
        arith,
        mul-le-mul {n₁ = x * p} {m₁ = y * q} {n₂ = w * d} {m₂ = w * e} hx hy,
        mul-le-mul_right (p * q) (div-mul-le_self (x * y) w),
      ))
      pos

mul-IsBetween :
    (b j k x y : ℕ) → IsBetween b j x → IsBetween b k y → IsBetween b (j + k) (x * y / wad)
mul-IsBetween b j k x y hx hy = record {
  simple =
      omega (
        arith,
        simple-mul wad (j * (b - wad)) (k * (b - wad)) x y (omega arith) hx.simple hy.simple,
      );
  compound =
      rw (pow-add wad j k, pow-add b j k)
        (compound-mul wad (wad ^ j) (wad ^ k) (b ^ j) (b ^ k) x y (omega arith) hx.compound
          hy.compound);
}

-- Growth that leaves 128 bits does so over more periods too.
too_large-more :
    (b n d : ℕ)
    → wad ≤ b
    → 2 ^ 128 * wad ^ n ≤ wad * b ^ n
    → 2 ^ 128 * wad ^ (n + d) ≤ wad * b ^ (n + d)
too_large-more b n d one h =
    rw (pow-add wad n d, pow-add b n d)
      (omega (
        arith,
        mul-le-mul {n₁ = 2 ^ 128 * wad ^ n} {m₁ = wad ^ d} {n₂ = wad * b ^ n} {m₂ = b ^ d} h
            (pow-le-pow_left one d),
      ))

no_period : (b : ℕ) → IsBetween b 0 wad
no_period b = record { simple = omega arith; compound = omega (arith, pow-zero wad, pow-zero b) }

pow_once : (b : ℕ) → b ^ 1 ≡ b
pow_once b = omega (arith, pow-suc b 0, ap (λ (t : ℕ). t * b) (pow-zero b))

one_period : (b : ℕ) → wad ≤ b → IsBetween b 1 b
one_period b one = record {
  simple = omega (arith, one);
  compound = omega (arith, pow_once wad, pow_once b);
}

all_done : (e k j n : ℕ) → n ≡ k + j * (2 * (e / 2)) → e / 2 ≡ 0 → n ≡ k
all_done e k j n total h = omega (arith, total, ap (λ (t : ℕ). j * t) h)

module _ ⦃u : Uint⦄ (laws : IsUint u) where
  wad_mul-IsBetween :
      (b n j k x y : ℕ)
      → wad ≤ b
      → j + k ≤ n
      → IsU128 x
      → IsU128 y
      → IsBetween b j x
      → IsBetween b k y
      → Safe (λ r. IsU128 r × IsBetween b (j + k) r) (IsTooLarge b n) (wad_mul x y)
  unfolding wad_mul
  wad_mul-IsBetween b n j k x y one le hx hy bx by' =
      Safe-or_panic->>= _ _ (laws.mul_lem x y (mul-lt_256 hx hy)) (
        Safe-or_panic->>= _ _ (laws.div_lem (x * y) wad (omega arith)) (
          Safe-ok_or_when _ _
            (λ large. record {
              is_told = refl;
              too_large = grown (ground (arith, laws.to_u128_lem (x * y / wad)));
            })
            λ r hr.
              let fits = to_u128-fits laws _ r hr in
              (fits.0, rw fits.1 (mul-IsBetween b j k x y bx by'))))
    where
      grown : 2 ^ 128 ≤ x * y / wad → 2 ^ 128 * wad ^ n ≤ wad * b ^ n
      grown large =
          let e : n ≡ j + k + (n - (j + k)) = omega (arith, le) in
          let product = (mul-IsBetween b j k x y bx by').compound in
          let scaled : 2 ^ 128 * wad ^ (j + k) ≤ x * y / wad * wad ^ (j + k) =
            mul-le-mul_right (wad ^ (j + k)) large in
          rw e (too_large-more b (j + k) (n - (j + k)) one (omega (arith, scaled, product)))

  -- The loop multiplies into `ret`, over `k` periods, the power of `base`, over `j`, that the rest
  -- of the exponent asks for.
  wad_pow_loop-IsBetween :
      (fuel b n e base ret j k : ℕ)
      → e < 2 ^ fuel * 2
      → wad ≤ b
      → IsU128 base
      → IsU128 ret
      → IsBetween b j base
      → IsBetween b k ret
      → n ≡ k + j * (2 * (e / 2))
      → Safe (λ r. IsU128 r × IsBetween b n r) (IsTooLarge b n) (wad_pow_loop (suc fuel) e base ret)
  unfolding wad_pow_loop
  wad_pow_loop-IsBetween zero b n e base ret j k small one hb hr bb br total =
      Safe-if (e / 2 == 0) _ _
        (λ done. Safe-ok ret (hr, rw (all_done e k j n total (ground arith)) br))
        (λ more. absurd (ground arith))
  wad_pow_loop-IsBetween (suc fuel) b n e base ret j k small one hb hr bb br total =
      Safe-if (e / 2 == 0) _ _
        (λ done. Safe-ok ret (hr, rw (all_done e k j n total (ground arith)) br))
        λ more.
          let twice : j + j ≤ n =
            omega (arith, total, mul-le-mul_left {m = 1} {n = e / 2} j (ground arith)) in
          Safe->>= _ _ (wad_mul-IsBetween b n j j base base one twice hb hb bb bb) λ base' _ fb.
            Safe->>= _ _ (step base' fb.0 fb.1) λ ret' _ fr.
              wad_pow_loop-IsBetween fuel b n (e / 2) base' ret' (j + j) fr.1
                (omega (arith, pow-suc 2 fuel)) one fb.0 fr.0 fb.1 fr.2 fr.3
    where
      step :
          (base' : ℕ)
          → IsU128 base'
          → IsBetween b (j + j) base'
          → Safe
              (λ r. IsU128 r × (k' : ℕ) × IsBetween b k' r × (n ≡ k' + (j + j) * (2 * (e / 2 / 2))))
              (IsTooLarge b n)
              (if e / 2 % 2 == 0 then ok ret else wad_mul ret base')
      step base' fits between =
          Safe-if (e / 2 % 2 == 0) _ _
            (λ even.
              let half : e / 2 ≡ 2 * (e / 2 / 2) = ground arith in
              Safe-ok ret (hr, k, br, omega (arith, total, ap (λ (t : ℕ). j * t) half)))
            λ odd.
              let half : e / 2 ≡ 2 * (e / 2 / 2) + 1 = ground arith in
              let rest = ap (λ (t : ℕ). j * t) half in
              Safe-weaken _
                (wad_mul-IsBetween b n k (j + j) ret base' one (omega (arith, total, rest)) hr fits
                  br between)
                λ r _ f. (f.0, k + (j + j), f.1, omega (arith, total, rest))

  -- On a factor of at least one and an exponent of 64 bits, and with laws of `U256` as documented,
  -- the loop of `wad_pow` ends and nothing panics. The power is at least the simple growth and at most the compound growth of the factor
  -- over as many periods; the only error is the overflow of a product, and then the compound growth
  -- itself leaves 128 bits.
  pub wad_pow-IsBetween :
      (base e : ℕ)
      → IsFactor base
      → IsU64 e
      → Safe (λ r. IsU128 r × IsBetween base e r) (IsTooLarge base e) (wad_pow base e)
  unfolding wad_pow
  wad_pow-IsBetween base e hb he =
      let (k, first, total) = start (e % 2 == 0) refl in
      wad_pow_loop-IsBetween 63 base e e base _ 1 k (omega arith) hb.1 hb.0 first.0
        (one_period base hb.1) first.1 total
    where
      start :
          (even : Bool)
          → e % 2 == 0 ≡ even
          → (k : ℕ) × (IsU128 (if even then wad else base)
              × IsBetween base k (if even then wad else base))
            × (e ≡ k + 1 * (2 * (e / 2)))
      start true h = (0, (omega arith, no_period base), ground arith)
      start false h = (1, (hb.0, one_period base hb.1), ground arith)

  pub wad_pow-IsFactor :
      (base e : ℕ) → IsFactor base → IsU64 e → Safe IsFactor NotLoss (wad_pow base e)
  wad_pow-IsFactor base e hb he =
      Safe-weaken _
        (Safe-weaken_error _ (wad_pow-IsBetween base e hb he) λ x told. rw told.is_told refl)
        λ r _ f. (f.0, omega (arith, f.1.simple))
