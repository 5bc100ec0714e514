-- ===== src/Klend/Fraction.antt =====
-- `src/your_venue/klend/fraction.rs`: fractions of 60 bits, the wide ones over `U256`, and the
-- approximation of compound interest. An operator that panics on overflow is a call of
-- `or_panic`.
use overpass_titan_venue.Base.{
  ℕ, ◌+◌, ◌-◌, ◌%◌, ◌^◌, Option, none, some, Outcome, ok, ◌>>=◌, or_panic, ◌==◌, if◌then◌else◌,
}
use overpass_titan_venue.Uint.{Uint}
use overpass_titan_venue.Klend.Fixed.{Fixed}
use overpass_titan_venue.Shares.{and_then}

abbrev pub fraction_bits_shift : ℕ
fraction_bits_shift = 60

unfoldable pub checked_shl : ⦃u : Uint⦄ → ℕ → ℕ → Option ℕ
checked_shl ⦃u⦄ number bit_count =
    let result = u.shl number bit_count in
    if u.shr result bit_count == number then some result else none

-- `BigFraction`, by its bits.
unfoldable pub big_from_num : ⦃u : Uint⦄ → ℕ → Option ℕ
unfolding checked_shl
big_from_num num = checked_shl num fraction_bits_shift

unfoldable pub try_into_fraction : ⦃u : Uint⦄ → ℕ → Option ℕ
try_into_fraction ⦃u⦄ bits = u.to_u128 bits

-- The division is by a positive number.
unfoldable pub big_div : ⦃u : Uint⦄ → ℕ → ℕ → Option ℕ
unfolding checked_shl
big_div ⦃u⦄ bits rhs =
    if rhs == 0
    then none
    else and_then (checked_shl bits fraction_bits_shift) (λ extra_scaled. u.div extra_scaled rhs)

unfoldable pub big_mul : ⦃u : Uint⦄ → ℕ → ℕ → Outcome ℕ
big_mul ⦃u⦄ bits rhs = do
  extra_scaled ← or_panic (u.mul bits rhs)
  ok (u.shr extra_scaled fraction_bits_shift)

abbrev wrapping_sub : ℕ → ℕ → ℕ
wrapping_sub a b = (a + (2 ^ 128 - b)) % 2 ^ 128

-- The first four terms of the binomial series; the small powers are computed exactly.
unfoldable pub approximate_compounded_interest : ⦃f : Fixed⦄ → ℕ → ℕ → ℕ → Outcome ℕ
approximate_compounded_interest ⦃f⦄ rate elapsed_units units_per_year = do
  base ← or_panic (f.div_int rate units_per_year)
  if elapsed_units == 0
      then ok f.one
      else (if elapsed_units == 1
          then or_panic (f.add f.one base)
          else (if elapsed_units == 2
              then (do factor ← or_panic (f.add f.one base); or_panic (f.mul factor factor))
              else (if elapsed_units == 3
                  then (do
                    factor ← or_panic (f.add f.one base)
                    square ← or_panic (f.mul factor factor)
                    or_panic (f.mul square factor))
                  else (if elapsed_units == 4
                      then (do
                        factor ← or_panic (f.add f.one base)
                        pow_two ← or_panic (f.mul factor factor)
                        or_panic (f.mul pow_two pow_two))
                      else (do
                        let exp_minus_one = wrapping_sub elapsed_units 1
                        let exp_minus_two = wrapping_sub elapsed_units 2
                        first_term ← or_panic (f.mul_int base elapsed_units)
                        second ← or_panic (f.mul first_term base)
                        second_scaled ← or_panic (f.mul_int second exp_minus_one)
                        second_term ← or_panic (f.div_int second_scaled 2)
                        third ← or_panic (f.mul second_term base)
                        third_scaled ← or_panic (f.mul_int third exp_minus_two)
                        third_term ← or_panic (f.div_int third_scaled 3)
                        sum_one ← or_panic (f.add f.one first_term)
                        sum_two ← or_panic (f.add sum_one second_term)
                        or_panic (f.add sum_two third_term))))))

unfoldable pub bps_to_fraction : ⦃f : Fixed⦄ → ℕ → Outcome ℕ
bps_to_fraction ⦃f⦄ bps = do num ← or_panic (f.from_num bps); or_panic (f.div_int num 10000)

unfoldable pub percent_to_fraction : ⦃f : Fixed⦄ → ℕ → Outcome ℕ
percent_to_fraction ⦃f⦄ pct = do num ← or_panic (f.from_num pct); or_panic (f.div_int num 100)
