-- ===== src/Uint/Native.antt =====
-- A function for each operation that meets the laws, so that they can be met together.
use overpass_titan_venue.Base.{
  ℕ, ◌+◌, ◌-◌, ◌*◌, ◌/◌, ◌%◌, ◌^◌, ◌<◌, ◌≡◌, refl, Option, none, some, arith, leb, ltb, ◌==◌,
  if◌then◌else◌,
}
use overpass_titan_venue.Uint.{Uint, IsUint}

abbrev fit : ℕ → ℕ → Option ℕ
fit bits n = if ltb n (2 ^ bits) then some n else none

abbrev pub native_uint : Uint
native_uint = record {
  mul = λ a b. fit 256 (a * b);
  add = λ a b. fit 256 (a + b);
  sub = λ a b. if leb b a then some (a - b) else none;
  div = λ a b. if b == 0 then none else some (a / b);
  shl = λ a k. a * 2 ^ k % 2 ^ 256;
  shr = λ a k. a / 2 ^ k;
  mul? = λ a b. fit 256 (a * b);
  add? = λ a b. fit 256 (a + b);
  to_u128 = fit 128;
  low_u128 = λ a. a % 2 ^ 128;
}

fit_lem : (bits n : ℕ) → n < 2 ^ bits → fit bits n ≡ some n
fit_lem bits n h = ground arith

pub native_uint-IsUint : IsUint native_uint
native_uint-IsUint = record {
  mul_lem = λ a b h. fit_lem 256 (a * b) h;
  add_lem = λ a b h. fit_lem 256 (a + b) h;
  sub_lem = λ a b h. ground arith;
  div_lem = λ a b h. ground arith;
  shl_lem = λ a k. refl;
  shr_lem = λ a k. refl;
  mul?_lem = λ a b h. fit_lem 256 (a * b) h;
  add?_lem = λ a b h. fit_lem 256 (a + b) h;
  to_u128_lem = λ a h. fit_lem 128 a h;
  to_u128_large = λ a h. ground arith;
  low_u128_lem = λ a. refl;
}
