-- ===== src/Int.antt =====
-- The signed integers of Rust, for capacities, timestamps and the bits of signed fractions.
use overpass_titan_venue.Base.{
  ℕ, suc, ◌+◌, ◌-◌, ◌^◌, Bool, true, false, Option, none, try_from, u64_max, ltb, leb, ◌==◌,
  if◌then◌else◌,
}

-- `negsuc n` is `- (1 + n)`.
pub data ℤ : Type 0 where
  pos negsuc : ℕ → ℤ

-- Two's complement of 64 bits.
unfoldable pub to_i64 : ℕ → ℤ
to_i64 n = if ltb n (2 ^ 63) then pos n else negsuc (2 ^ 64 - 1 - n)

unfoldable pub int_leb : ℤ → ℤ → Bool
int_leb (pos a) (pos b) = leb a b
int_leb (pos a) (negsuc b) = false
int_leb (negsuc a) (pos b) = true
int_leb (negsuc a) (negsuc b) = leb b a

unfoldable pub nat_sub : ℕ → ℕ → ℤ
nat_sub a b = if leb b a then pos (a - b) else negsuc (b - a - 1)

-- Exact, as in `i128` for two values of 64 bits.
unfoldable pub int_sub : ℤ → ℤ → ℤ
unfolding nat_sub
int_sub (pos a) (pos b) = nat_sub a b
int_sub (pos a) (negsuc b) = pos (a + suc b)
int_sub (negsuc a) (pos b) = negsuc (a + b)
int_sub (negsuc a) (negsuc b) = nat_sub b a

-- `u64::try_from`.
unfoldable pub int_to_u64 : ℤ → Option ℕ
int_to_u64 (pos a) = try_from u64_max a
int_to_u64 (negsuc a) = none

-- `x.max(0) as u64`, for an `i64`.
unfoldable pub max_zero : ℤ → ℕ
max_zero (pos a) = a
max_zero (negsuc a) = 0

-- Two's complement of 128 bits, as in `u128 as i128`.
unfoldable pub to_i128 : ℕ → ℤ
to_i128 n = if ltb n (2 ^ 127) then pos n else negsuc (2 ^ 128 - 1 - n)

unfoldable pub int_min : ℤ → ℤ → ℤ
unfolding int_leb
int_min a b = if int_leb a b then a else b

unfoldable pub int_max : ℤ → ℤ → ℤ
unfolding int_leb
int_max a b = if int_leb a b then b else a

unfoldable pub int_eqb : ℤ → ℤ → Bool
int_eqb (pos a) (pos b) = a == b
int_eqb (negsuc a) (negsuc b) = a == b
int_eqb (pos a) (negsuc b) = false
int_eqb (negsuc a) (pos b) = false
