-- ===== src/Marginfi/Signed/Laws.antt =====
-- What a checked operation on fractions that are not negative returned, where it returned.
use native.Mathlib.Decide.{dec_lt}
use overpass_titan_venue.Base.{
  ℕ, ◌+◌, ◌*◌, ◌/◌, ◌^◌, ◌≤◌, ◌<◌, ◌≡◌, Option, some, arith, true, false,
}
use mathlib.Core.Path.{subst}
use overpass_titan_venue.Shares.{and_then}
use overpass_titan_venue.Int.{ℤ, pos, int_leb, nat_sub, to_i128, int_eqb}
use overpass_titan_venue.Marginfi.Signed.{Signed, IsSigned}

pub to_i128_lem : (a : ℕ) → a < 2 ^ 127 → to_i128 a ≡ pos a
unfolding to_i128
to_i128_lem a h = ground arith

-- A difference is at least a number only where no borrow occurred.
pub int_leb-nat_sub : (l a b : ℕ) → int_leb (pos l) (nat_sub a b) ≡ true → l + b ≤ a
unfolding int_leb nat_sub
int_leb-nat_sub l a b h = elim (dec_lt a b) [ yes p ↦ absurd (ground arith) | no p ↦ ground arith ]

pub int_eqb-pos : (a b : ℕ) → int_eqb (pos a) (pos b) ≡ false → ¬ (a ≡ b)
unfolding int_eqb
int_eqb-pos a b h = ground arith

pub int_leb-pos : (a b : ℕ) → int_leb (pos a) (pos b) ≡ false → b < a
unfolding int_leb
int_leb-pos a b h = ground arith

module _ (f : Signed) (laws : IsSigned f) where
  pub checked_mul_some :
      (a b : ℕ) (r : ℤ)
      → f.checked_mul (pos a) (pos b) ≡ some r
      → (a * b / 2 ^ 48 < 2 ^ 127) × (r ≡ pos (a * b / 2 ^ 48))
  checked_mul_some a b r h = elim (dec_lt (a * b / 2 ^ 48) (2 ^ 127)) [
    | yes p ↦ let e = laws.checked_mul_lem a b p in (p, cc)
    | no p ↦ let e = laws.checked_mul_large a b (omega arith) in absurd cc
  ]

  pub checked_div_some :
      (a b : ℕ) (r : ℤ)
      → 0 < b
      → f.checked_div (pos a) (pos b) ≡ some r
      → (a * 2 ^ 48 / b < 2 ^ 127) × (r ≡ pos (a * 2 ^ 48 / b))
  checked_div_some a b r d h = elim (dec_lt (a * 2 ^ 48 / b) (2 ^ 127)) [
    | yes p ↦ let e = laws.checked_div_lem a b d p in (p, cc)
    | no p ↦ let e = laws.checked_div_large a b d (omega arith) in absurd cc
  ]

  pub checked_add_some :
      (a b : ℕ) (r : ℤ)
      → f.checked_add (pos a) (pos b) ≡ some r
      → (a + b < 2 ^ 127) × (r ≡ pos (a + b))
  checked_add_some a b r h = elim (dec_lt (a + b) (2 ^ 127)) [
    | yes p ↦ let e = laws.checked_add_lem a b p in (p, cc)
    | no p ↦ let e = laws.checked_add_large a b (omega arith) in absurd cc
  ]

  pub checked_to_u64_some :
      (a r : ℕ) → f.checked_to_u64 (pos a) ≡ some r → (r < 2 ^ 64) × (r ≡ a / 2 ^ 48)
  checked_to_u64_some a r h = elim (dec_lt (a / 2 ^ 48) (2 ^ 64)) [
    | yes p ↦ let e = laws.checked_to_u64_lem a p in let q : r ≡ a / 2 ^ 48 = cc in (omega arith, q)
    | no p ↦ let e = laws.checked_to_u64_large a (omega arith) in absurd cc
  ]

  -- A product that is divided in the same step.
  pub mul-div_some :
      (a b c : ℕ) (r : ℤ)
      → 0 < c
      → and_then (f.checked_mul (pos a) (pos b)) (λ x. f.checked_div x (pos c)) ≡ some r
      → r ≡ pos (a * b / 2 ^ 48 * 2 ^ 48 / c)
  mul-div_some a b c r d h = elim (dec_lt (a * b / 2 ^ 48) (2 ^ 127)) [
    | yes p ↦
        let e = subst Rest {x = f.checked_mul (pos a) (pos b)} (laws.checked_mul_lem a b p) h in
        (checked_div_some (a * b / 2 ^ 48) c r d e).1
    | no p ↦ let e = subst Rest (laws.checked_mul_large a b (omega arith)) h in absurd cc
  ]
    where
      Rest : Option ℤ → Type 0
      Rest o = and_then o (λ x. f.checked_div x (pos c)) ≡ some r
