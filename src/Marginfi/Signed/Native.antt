-- ===== src/Marginfi/Signed/Native.antt =====
-- A function for each operation that meets the laws, so that they can be met together. Results
-- that leave the range, and operations on negative values that the laws leave open, fail.
use overpass_titan_venue.Base.{
  ℕ, ◌+◌, ◌*◌, ◌/◌, ◌^◌, ◌<◌, ◌≤◌, ◌≡◌, refl, Option, none, some, arith, ltb, ◌==◌, if◌then◌else◌,
}
use overpass_titan_venue.Int.{ℤ, pos, negsuc, nat_sub}
use overpass_titan_venue.Marginfi.Signed.{Signed, IsSigned}

abbrev fit : ℕ → Option ℤ
fit n = if ltb n (2 ^ 127) then some (pos n) else none

-- An operation of numbers, on integers that are not negative.
abbrev lift : (ℕ → ℕ → Option ℤ) → ℤ → ℤ → Option ℤ
lift op (pos a) (pos b) = op a b
lift op (pos a) (negsuc b) = none
lift op (negsuc a) b = none

abbrev div_bits : ℕ → ℕ → Option ℤ
div_bits a b = if b == 0 then none else fit (a * 2 ^ 48 / b)

abbrev floor_bits : ℤ → Option ℤ
floor_bits (pos a) = some (pos (a / 2 ^ 48 * 2 ^ 48))
floor_bits (negsuc a) = none

abbrev to_u64 : ℤ → Option ℕ
to_u64 (pos a) = if ltb (a / 2 ^ 48) (2 ^ 64) then some (a / 2 ^ 48) else none
to_u64 (negsuc a) = none

abbrev pub native_signed : Signed
native_signed = record {
  one = pos (2 ^ 48);
  from_num = λ a. fit (a * 2 ^ 48);
  add = lift (λ a b. fit (a + b));
  sub = lift (λ a b. some (nat_sub a b));
  mul = lift (λ a b. fit (a * b / 2 ^ 48));
  div = lift div_bits;
  checked_add = lift (λ a b. fit (a + b));
  checked_sub = lift (λ a b. some (nat_sub a b));
  checked_mul = lift (λ a b. fit (a * b / 2 ^ 48));
  checked_div = lift div_bits;
  floor = floor_bits;
  checked_to_u64 = to_u64;
}

fit_lem : (n : ℕ) → n < 2 ^ 127 → fit n ≡ some (pos n)
fit_lem n h = ground arith

fit_large : (n : ℕ) → 2 ^ 127 ≤ n → fit n ≡ none
fit_large n h = ground arith

pub native_signed-IsSigned : IsSigned native_signed
native_signed-IsSigned = record {
  one_lem = refl;
  from_num_lem = λ a h. fit_lem (a * 2 ^ 48) (omega arith);
  checked_add_lem = λ a b h. fit_lem (a + b) h;
  checked_add_large = λ a b h. fit_large (a + b) h;
  checked_sub_lem = λ a b ha hb. refl;
  checked_mul_lem = λ a b h. fit_lem (a * b / 2 ^ 48) h;
  checked_mul_large = λ a b h. fit_large (a * b / 2 ^ 48) h;
  checked_div_lem = λ a b p h. ground arith;
  checked_div_large = λ a b p h. ground arith;
  checked_div_zero = λ a. refl;
  floor_lem = λ a. refl;
  checked_to_u64_lem = λ a h. ground arith;
  checked_to_u64_large = λ a h. ground arith;
}
