-- ===== src/Bounds/Search.antt =====
-- `find_boundaries` of `src/trading_venue/bounds.rs`: what the two bounds guarantee.
use native.Mathlib.Decide.{dec_lt}
use overpass_titan_venue.Base.{
  ℕ, ◌+◌, ◌*◌, ◌^◌, ◌≤◌, ◌<◌, ◌≡◌, refl, sym, ◌∙◌, Bool, TradingVenueError, ◌⊎◌, inl, inr, true,
  false, Outcome, ok, err, arith, u64_max, no_quotable_value, static_str, ◌==◌,
}
use overpass_titan_venue.TradingVenue.{QuoteResult}
use overpass_titan_venue.Bounds.{find_boundaries, refine_lower, refine_upper}
use overpass_titan_venue.Bounds.Probe.{is_valid, NeverPanics}
use overpass_titan_venue.Bounds.Refine.{refine_lower_lem, refine_upper_lem, refine_upper_same}
use overpass_titan_venue.Bounds.Coarse.{
  LowerFound, UpperFound, find_boundaries_coarse_lem, power_fits,
}

-- The bounds quote validly. Within 100 below the lower one lies 0 or an input with no valid
-- quote, and within 100 above the upper one the top of `u64` or an input with no valid quote.
pub record IsRange {F : Type 0} (f : ℕ → Outcome (QuoteResult F)) (lo hi : ℕ) : Type 0 where
  pub ordered : lo ≤ hi
  pub fits : hi < 2 ^ 64
  pub lo_valid : is_valid (f lo) ≡ true
  pub hi_valid : is_valid (f hi) ≡ true
  pub below : ℕ
  pub below_lt : below < lo
  pub below_near : lo ≤ below + 100
  pub below_invalid : (below ≡ 0) ⊎ (is_valid (f below) ≡ false)
  pub beyond : ℕ
  pub beyond_ge : hi ≤ beyond
  pub beyond_near : beyond ≤ hi + 100
  pub beyond_invalid : (beyond ≡ u64_max) ⊎ (is_valid (f beyond) ≡ false)

module _ {F : Type 0} (f : ℕ → Outcome (QuoteResult F)) (total : NeverPanics f) where
  -- The upper refinement of a bracket that the coarse search found.
  refine_upper_found :
      (start low high : ℕ)
      → UpperFound f total start low high
      → (a b : ℕ) × (refine_upper f low high ≡ ok a)
        × (low ≤ a)
        × (a ≤ b)
        × (b ≤ a + 100)
        × (a < 2 ^ 64)
        × (is_valid (f a) ≡ true)
        × ((b ≡ u64_max) ⊎ (is_valid (f b) ≡ false))
  refine_upper_found start low high found = elim (dec_lt low high) [
    | yes lt ↦
        let (a, b, eq, (edge, la, hb)) = refine_upper_lem f total low high lt found.fits in
        (
          a,
          b,
          eq,
          edge.from_low,
          omega (arith, edge.below),
          edge.near,
          omega (arith, edge.below, edge.to_high, found.fits),
          low_end a la,
          high_end b hb,
        )
    | no ge ↦
        let e : low ≡ high = omega (arith, found.ordered) in
        (
          high,
          high,
          rw e (refine_upper_same f total high found.fits),
          omega arith,
          omega arith,
          omega arith,
          found.fits,
          rw e at found.valid,
          found.beyond,
        )
  ]
    where
      low_end : (a : ℕ) → (a ≡ low) ⊎ (is_valid (f a) ≡ true) → is_valid (f a) ≡ true
      low_end a (inl e) = rw e found.valid
      low_end a (inr v) = v

      high_end :
          (b : ℕ) → (b ≡ high) ⊎ (is_valid (f b) ≡ false) → (b ≡ u64_max) ⊎ (is_valid (f b) ≡ false)
      high_end b (inl e) = rw e found.beyond
      high_end b (inr v) = inr v

  refine_lower_found :
      (low high : ℕ)
      → high < 2 ^ 64
      → LowerFound f total 63 0 low high
      → (a b : ℕ) × (refine_lower f low high ≡ ok b)
        × (a < b)
        × (b ≤ a + 100)
        × (b ≤ high)
        × (is_valid (f b) ≡ true)
        × ((a ≡ 0) ⊎ (is_valid (f a) ≡ false))
  refine_lower_found low high wide found =
      let (a, b, eq, (edge, la, hb)) = refine_lower_lem f total low high found.ordered wide in
      (a, b, eq, edge.below, edge.near, edge.to_high, high_end b hb, low_end a la)
    where
      low_end : (a : ℕ) → (a ≡ low) ⊎ (is_valid (f a) ≡ false) → (a ≡ 0) ⊎ (is_valid (f a) ≡ false)
      low_end a (inl e) = rw e found.below
      low_end a (inr v) = inr v

      high_end : (b : ℕ) → (b ≡ high) ⊎ (is_valid (f b) ≡ true) → is_valid (f b) ≡ true
      high_end b (inl e) = rw e found.valid
      high_end b (inr v) = v

  high_fits : {low high : ℕ} → LowerFound f total 63 0 low high → high ≤ 2 ^ 63
  high_fits {high} found = power_fits f total found.doublings high found.power

  -- `find_boundaries` returns. It reports that nothing can be quoted exactly when no power of two
  -- below 2 ^ 64 has a valid quote; otherwise it returns bounds that quote validly, each within
  -- 100 of an end of the search or of an input with no valid quote.
  pub find_boundaries_lem :
      ((find_boundaries f
          ≡ err (
              no_quotable_value
                (static_str "No quotable value found; exponential search hit u64::MAX")))
        × ((i : ℕ) → i ≤ 63 → is_valid (f (2 ^ i)) ≡ false))
      ⊎ ((lo hi : ℕ) × (find_boundaries f ≡ ok (lo, hi))
          × IsRange f lo hi
          × (i : ℕ) × (i ≤ 63)
          × (is_valid (f (2 ^ i)) ≡ true))
  unfolding find_boundaries
  find_boundaries_lem = elim (find_boundaries_coarse_lem f total) [
    | inl (eq, all) ↦
        inl (rw eq refl, λ i le. let e : 2 ^ i * 1 ≡ 2 ^ i = omega arith in rw e at (all i le))
    | inr (low, high, ul, uh, eq, found, up) ↦
        let fits : high ≤ 2 ^ 63 = high_fits found in
        let (a, b, eq_lo, lt, near, le, vb, ia) = refine_lower_found low high (omega arith) found in
        let (c, d, eq_hi, up_le, cd, near', wide, vc, id) = refine_upper_found high ul uh up in
        let t1 : (low == uh) ≡ false = ground (arith, found.ordered, up.above, up.ordered) in
        let t2 : (high == u64_max) ≡ false = ground arith in
        inr (
          b,
          c,
          rw eq (rw (t1, t2) (rw eq_lo (rw eq_hi refl))),
          record {
            ordered = omega (arith, up.above);
            fits = wide;
            lo_valid = vb;
            hi_valid = vc;
            below = a;
            below_lt = lt;
            below_near = near;
            below_invalid = ia;
            beyond = d;
            beyond_ge = cd;
            beyond_near = near';
            beyond_invalid = id;
          },
          found.index,
          found.index_le,
          rw (found.is_power) at found.valid,
        )
  ]

  -- For a venue whose valid inputs form an interval, bounds that were found are right up to 100:
  -- every input between them is valid, and no input of `u64` more than 100 outside them is.
  pub find_boundaries_interval :
      ((x y z : ℕ)
        → x ≤ y
        → y ≤ z
        → is_valid (f x) ≡ true
        → is_valid (f z) ≡ true
        → is_valid (f y) ≡ true)
      → (lo hi : ℕ) → find_boundaries f ≡ ok (lo, hi)
      → (y : ℕ) → y < 2 ^ 64
      → (lo ≤ y → y ≤ hi → is_valid (f y) ≡ true)
        × (y + 100 < lo → is_valid (f y) ≡ false)
        × (hi + 100 < y → is_valid (f y) ≡ false)
  find_boundaries_interval convex lo hi eq y wide = elim find_boundaries_lem [
    | inl (eq', _) ↦ absurd (err_not_ok (sym eq' ∙ eq))
    | inr (lo', hi', eq', range, _, _, _) ↦ within lo' hi' (ok_pair (sym eq' ∙ eq)) range
  ]
    where
      err_not_ok : {e : TradingVenueError} {p : ℕ × ℕ} → err e ≡ ok p → ⊥
      err_not_ok h = cc

      ok_pair :
          {a b c d : ℕ} → ◌≡◌ {A = Outcome (ℕ × ℕ)} (ok (a, b)) (ok (c, d)) → (a ≡ c) × (b ≡ d)
      ok_pair h = ground (arith)

      outside : (v : Bool) → (v ≡ true → ⊥) → v ≡ false
      outside true h = absurd (h refl)
      outside false h = refl

      within :
          (a b : ℕ)
          → (a ≡ lo) × (b ≡ hi)
          → IsRange f a b
          → (lo ≤ y → y ≤ hi → is_valid (f y) ≡ true)
            × (y + 100 < lo → is_valid (f y) ≡ false)
            × (hi + 100 < y → is_valid (f y) ≡ false)
      within a b (ea, eb) r = (
        λ p q. convex a y b (omega arith) (omega arith) r.lo_valid r.hi_valid,
        λ p. outside _ λ v. elim r.below_invalid [
          | inl z ↦ omega (arith, r.below_near)
          | inr i ↦
              true_false
                (convex y r.below a (omega (arith, r.below_near)) (omega (arith, r.below_lt)) v
                  r.lo_valid)
                i
        ],
        λ p. outside _ λ v. elim r.beyond_invalid [
          | inl z ↦ omega (arith, r.beyond_near)
          | inr i ↦
              true_false
                (convex b r.beyond y r.beyond_ge (omega (arith, r.beyond_near)) r.hi_valid v) i
        ],
      )
        where
          true_false : {v : Bool} → v ≡ true → v ≡ false → ⊥
          true_false p q = cc
