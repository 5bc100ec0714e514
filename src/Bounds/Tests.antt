-- ===== src/Bounds/Tests.antt =====
-- Runs of the search on a quote function that is valid from 1,000 to 50,000, and the theorems at it.
use overpass_titan_venue.Base.{
  ℕ, ◌≤◌, ◌≡◌, refl, ◌⊎◌, true, false, ◌&&◌, Outcome, ok, err, arith, leb, [], math_error,
  if◌then◌else◌, ◌<◌, ◌+◌, ◌^◌, no_quotable_value, static_str,
}
use overpass_titan_venue.TradingVenue.{QuoteResult}
use overpass_titan_venue.Bounds.{
  valid_quote, probe, expand_lower, expand_upper, narrow_lower, narrow_upper, find_boundaries,
}
use overpass_titan_venue.Bounds.Probe.{is_valid, NeverPanics}
use overpass_titan_venue.Bounds.Search.{IsRange, find_boundaries_lem, find_boundaries_interval}

-- An error below 1,000, no liquidity above 50,000, and half of the input between.
abbrev half_quote : ℕ → Outcome (QuoteResult ℕ)
half_quote x =
    if leb 1000 x
    then ok (record {
      input_mint = [];
      output_mint = [];
      amount = x;
      expected_output = 500;
      not_enough_liquidity = if leb x 50000 then false else true;
      price = 0;
    })
    else err (math_error "too small")

half_quote-NeverPanics : NeverPanics half_quote
half_quote-NeverPanics x wide = ground arith

half_quote_valid : (x : ℕ) → is_valid (half_quote x) ≡ (leb 1000 x && leb x 50000)
unfolding valid_quote
half_quote_valid x = ground arith

half_quote_convex :
    (x y z : ℕ)
    → x ≤ y
    → y ≤ z
    → is_valid (half_quote x) ≡ true
    → is_valid (half_quote z) ≡ true
    → is_valid (half_quote y) ≡ true
half_quote_convex x y z p q vx vz =
    ground (arith, half_quote_valid x, half_quote_valid y, half_quote_valid z)

find_boundaries_run : find_boundaries half_quote ≡ ok (1024, 49984)
unfolding find_boundaries expand_lower expand_upper narrow_lower narrow_upper probe
find_boundaries_run = refl

-- The lower bound is 24 above the least valid input, as the search stops at a width of 100.
find_boundaries_lem_example :
    ((find_boundaries half_quote
        ≡ err (
            no_quotable_value
              (static_str "No quotable value found; exponential search hit u64::MAX")))
      × ((i : ℕ) → i ≤ 63 → is_valid (half_quote (2 ^ i)) ≡ false))
    ⊎ ((lo hi : ℕ) × (find_boundaries half_quote ≡ ok (lo, hi))
        × IsRange half_quote lo hi
        × (i : ℕ) × (i ≤ 63)
        × (is_valid (half_quote (2 ^ i)) ≡ true))
find_boundaries_lem_example = find_boundaries_lem half_quote half_quote-NeverPanics

find_boundaries_interval_example :
    (1024 ≤ 1030 → 1030 ≤ 49984 → is_valid (half_quote 1030) ≡ true)
    × (1030 + 100 < 1024 → is_valid (half_quote 1030) ≡ false)
    × (49984 + 100 < 1030 → is_valid (half_quote 1030) ≡ false)
find_boundaries_interval_example =
    find_boundaries_interval half_quote half_quote-NeverPanics half_quote_convex 1024 49984
      find_boundaries_run 1030 (omega arith)
