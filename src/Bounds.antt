-- ===== src/Bounds.antt =====
-- `src/trading_venue/bounds.rs`: the search for the range of quotable inputs. Logging is left
-- out; the quotes that are made only to be logged are made here too, since they can panic.
-- Each loop takes fuel, and a loop that has used it up counts as a panic.
pub mod Probe
pub mod Refine
pub mod Coarse
pub mod Search
mod Tests
use overpass_titan_venue.Base.{
  ℕ, zero, suc, ◌+◌, ◌-◌, ◌/◌, Bool, true, false, not, ◌||◌, Outcome, ok, err, panic, ◌>>=◌, ◌>>◌,
  ltb, leb, ◌==◌, if◌then◌else◌, u64_max, saturating_mul, no_quotable_value, boundary_search_failed,
  static_str, fail_if,
}
use overpass_titan_venue.TradingVenue.{QuoteResult}

abbrev pub scaling_factor : ℕ
scaling_factor = 2

-- 64 doublings leave the range of `u64`; 64 halvings bring it below 100.
abbrev pub loop_fuel : ℕ
loop_fuel = 64

pub valid_quote : {F : Type 0} → QuoteResult F → Bool
valid_quote quote = not (quote.not_enough_liquidity || quote.expected_output == 0)

-- The match on `f(x)` in each loop: an error counts as invalid.
pub probe : {F : Type 0} → Outcome (QuoteResult F) → Outcome Bool
unfolding valid_quote
probe (ok result) = ok (valid_quote result)
probe (err _) = ok false
probe panic = panic

module _ {F : Type 0} (f : ℕ → Outcome (QuoteResult F)) where
  -- The first loop of `find_boundaries_coarse`, on `(lower_low, lower_high)`.
  pub expand_lower : ℕ → ℕ → ℕ → Outcome (ℕ × ℕ)
  unfolding ◌>>=◌
  expand_lower zero lower_low lower_high = panic
  expand_lower (suc fuel) lower_low lower_high = do
    valid ← probe (f lower_high)
    let next = saturating_mul u64_max lower_high scaling_factor
    elim valid [
      | true ↦ ok (lower_low, lower_high)
      | false ↦ elim (leb next lower_high || next == u64_max) [
        | true ↦ ok (lower_high, u64_max)
        | false ↦ expand_lower fuel lower_high next
      ]
    ]

  -- The second loop, on `(upper_low, upper_high)`.
  pub expand_upper : ℕ → ℕ → ℕ → Outcome (ℕ × ℕ)
  unfolding ◌>>=◌
  expand_upper zero upper_low upper_high = panic
  expand_upper (suc fuel) upper_low upper_high = do
    valid ← probe (f upper_high)
    let next = saturating_mul u64_max upper_high scaling_factor
    elim valid [
      | false ↦ ok (upper_low, upper_high)
      | true ↦ elim (leb next upper_high || next == u64_max) [
        | true ↦ ok (upper_high, u64_max)
        | false ↦ expand_upper fuel upper_high next
      ]
    ]

  pub find_boundaries_coarse : Outcome (ℕ × ℕ × ℕ × ℕ)
  unfolding ◌>>=◌
  find_boundaries_coarse = do
    (lower_low, lower_high) ← expand_lower loop_fuel 0 1
    let upper_high = saturating_mul u64_max lower_high scaling_factor
    (upper_low, upper_high') ←
        (if leb upper_high lower_high
          then ok (lower_high, lower_high)
          else expand_upper loop_fuel lower_high upper_high)
    ok (lower_low, lower_high, upper_low, upper_high')

  -- `high - low` is unchecked.
  pub narrow_lower : ℕ → ℕ → ℕ → Outcome ℕ
  unfolding ◌>>=◌
  narrow_lower zero low high = panic
  narrow_lower (suc fuel) low high = elim (ltb high low) [
    | true ↦ panic
    | false ↦ elim (ltb 100 (high - low)) [
      | false ↦ ok high
      | true ↦ probe (f (high / 2 + low / 2)) >>= λ valid. elim valid [
        | true ↦ narrow_lower fuel low (high / 2 + low / 2)
        | false ↦ narrow_lower fuel (high / 2 + low / 2) high
      ]
    ]
  ]

  pub refine_lower : ℕ → ℕ → Outcome ℕ
  unfolding ◌>>=◌
  refine_lower low high = do _ ← probe (f low); _ ← probe (f high); narrow_lower loop_fuel low high

  pub narrow_upper : ℕ → ℕ → ℕ → Outcome ℕ
  unfolding ◌>>=◌
  narrow_upper zero low high = panic
  narrow_upper (suc fuel) low high = elim (ltb high low) [
    | true ↦ panic
    | false ↦ elim (ltb 100 (high - low)) [
      | false ↦ ok low
      | true ↦ probe (f (high / 2 + low / 2)) >>= λ valid. elim valid [
        | true ↦ narrow_upper fuel (high / 2 + low / 2) high
        | false ↦ narrow_upper fuel low (high / 2 + low / 2)
      ]
    ]
  ]

  pub refine_upper : ℕ → ℕ → Outcome ℕ
  unfolding ◌>>=◌
  refine_upper low high = do _ ← probe (f low); _ ← probe (f high); narrow_upper loop_fuel low high

  pub find_boundaries : Outcome (ℕ × ℕ)
  unfolding find_boundaries_coarse refine_lower refine_upper ◌>>=◌ fail_if
  find_boundaries = do
    (lower_low, lower_high, upper_low, upper_high) ← find_boundaries_coarse
    fail_if (lower_low == upper_high) (
        boundary_search_failed
          (static_str "Search boundaries are all equal; search space collapsed"))
    fail_if (lower_high == u64_max)
        (no_quotable_value (static_str "No quotable value found; exponential search hit u64::MAX"))
    lower_bound ← refine_lower lower_low lower_high
    upper_bound ← refine_upper upper_low upper_high
    ok (lower_bound, upper_bound)
