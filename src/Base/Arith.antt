-- ===== src/Base/Arith.antt =====
-- Facts about products and quotients that the components share.
use native.Mathlib.Nat.{
  mul-le-mul, lt_of_mul-lt-mul_right, mod-lt, div-add-mod', div-mul-le_self, div-le_of_le-mul,
  le_trans,
}
use native.Mathlib.Decide.{dec_le}
use Prim.Native.Nat.{zero-le}
use mathlib.Core.Path.{subst₂}
use overpass_titan_venue.Base.{ℕ, ◌+◌, ◌-◌, ◌*◌, ◌/◌, ◌^◌, ◌≤◌, ◌<◌, ◌≡◌, sym, arith}

-- The product of two 128-bit numbers fits 256 bits, and that of two 64-bit numbers 128.
pub mul-lt_256 : {a b : ℕ} → a < 2 ^ 128 → b < 2 ^ 128 → a * b < 2 ^ 256
mul-lt_256 {a} {b} ha hb = omega (
  arith,
  mul-le-mul {n₁ = a} {m₁ = b} {n₂ = 2 ^ 128 - 1} {m₂ = 2 ^ 128 - 1} (omega arith) (omega arith),
)

pub mul-lt_128 : {a b : ℕ} → a < 2 ^ 64 → b < 2 ^ 64 → a * b < 2 ^ 128
mul-lt_128 {a} {b} ha hb = omega (
  arith,
  mul-le-mul {n₁ = a} {m₁ = b} {n₂ = 2 ^ 64 - 1} {m₂ = 2 ^ 64 - 1} (omega arith) (omega arith),
)

-- A share `c * s / h` that is minted to the holder of `c` units among `h` gives back no more
-- than `c` units when it is burnt at once.
pub burn-mint-le : (c s h : ℕ) → c * s / h * (h + c) / (s + c * s / h) ≤ c
burn-mint-le c s h = div-le_of_le-mul (s + c * s / h) (omega (arith, div-mul-le_self (c * s) h))

burn_exact : (d a j r : ℕ) → r * (d + a) ≤ a * (j + r) → (j + r) * d ≤ j * (d + a)
burn_exact d a j r h = omega arith

burn_over : (d a h k : ℕ) → (h + 1 + k) * (d + a) ≤ a * h → h * d ≤ 0
burn_over d a h k p = omega arith

-- Burning `a` of `s` shares for `r` of `h` units, at no more than the proportion, does not lower
-- the units per share.
pub burn-keeps : (h s a r : ℕ) → a ≤ s → r * s ≤ a * h → h * (s - a) ≤ (h - r) * s
burn-keeps h s a r le fair = elim (dec_le r h) [
  | yes rh ↦
      let es : s ≡ s - a + a = omega arith in
      let eh : h ≡ h - r + r = omega arith in
      subst₂ (λ x y. x * (s - a) ≤ (h - r) * y) (sym eh) (sym es)
        (burn_exact (s - a) a (h - r) r (subst₂ (λ x y. r * y ≤ a * x) eh es fair))
  | no hr ↦
      let es : s ≡ s - a + a = omega arith in
      let er : r ≡ h + 1 + (r - h - 1) = omega arith in
      le_trans (burn_over (s - a) a h (r - h - 1) (subst₂ (λ x y. x * y ≤ a * h) er es fair))
        zero-le
]

pub lt-suc-div-mul : (n d : ℕ) → 0 < d → n < (n / d + 1) * d
lt-suc-div-mul n d pos = omega (arith, div-add-mod' n d, mod-lt n pos)

-- A quotient rounded up.
pub le-ceil-mul : (n d : ℕ) → 0 < d → n ≤ (n + (d - 1)) / d * d
le-ceil-mul n d pos = omega (arith, lt-suc-div-mul (n + (d - 1)) d pos)

pub ceil-le : (n d l : ℕ) → 0 < d → n ≤ l * d → (n + (d - 1)) / d ≤ l
ceil-le n d l pos h =
    let q = (n + (d - 1)) / d in
    let below : q * d < (l + 1) * d = omega (arith, div-mul-le_self (n + (d - 1)) d) in
    omega (arith, lt_of_mul-lt-mul_right d below)
