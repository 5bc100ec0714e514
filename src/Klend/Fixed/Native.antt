-- ===== src/Klend/Fixed/Native.antt =====
-- A function for each operation that meets the laws, so that they can be met together.
use overpass_titan_venue.Base.{
  ℕ, ◌+◌, ◌-◌, ◌*◌, ◌/◌, ◌%◌, ◌^◌, ◌<◌, ◌≡◌, refl, Option, none, some, arith, leb, ltb, ◌==◌,
  if◌then◌else◌,
}
use overpass_titan_venue.Klend.Fixed.{Fixed, IsFixed}

abbrev fit : ℕ → Option ℕ
fit n = if ltb n (2 ^ 128) then some n else none

abbrev pub native_fixed : Fixed
native_fixed = record {
  one = 2 ^ 60;
  from_num = λ a. fit (a * 2 ^ 60);
  add = λ a b. fit (a + b);
  sub = λ a b. if leb b a then some (a - b) else none;
  mul = λ a b. fit (a * b / 2 ^ 60);
  div = λ a b. if b == 0 then none else fit (a * 2 ^ 60 / b);
  mul_int = λ a n. fit (a * n);
  div_int = λ a n. if n == 0 then none else some (a / n);
  round = λ a. fit ((a + 2 ^ 59) / 2 ^ 60 * 2 ^ 60);
  floor = λ a. some (a / 2 ^ 60 * 2 ^ 60);
  ceil = λ a. fit ((a + (2 ^ 60 - 1)) / 2 ^ 60 * 2 ^ 60);
  to_num = λ top a. if leb (a / 2 ^ 60) top then some (a / 2 ^ 60) else none;
  frac = λ a. a % 2 ^ 60;
}

fit_lem : (n : ℕ) → n < 2 ^ 128 → fit n ≡ some n
fit_lem n h = ground arith

pub native_fixed-IsFixed : IsFixed native_fixed
native_fixed-IsFixed = record {
  one_lem = refl;
  from_num_lem = λ a h. fit_lem (a * 2 ^ 60) (omega arith);
  add_lem = λ a b h. fit_lem (a + b) h;
  sub_lem = λ a b h. ground arith;
  mul_lem = λ a b h. fit_lem (a * b / 2 ^ 60) h;
  div_lem = λ a b p h. ground arith;
  mul_int_lem = λ a n h. fit_lem (a * n) h;
  div_int_lem = λ a n p. ground arith;
  floor_lem = λ a. refl;
  ceil_lem = λ a h. fit_lem ((a + (2 ^ 60 - 1)) / 2 ^ 60 * 2 ^ 60) (omega arith);
  to_num_lem = λ top a h. ground arith;
  frac_lem = λ a. refl;
}
