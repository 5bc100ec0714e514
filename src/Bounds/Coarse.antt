-- ===== src/Bounds/Coarse.antt =====
-- The exponential search of `src/trading_venue/bounds.rs`.
use native.Mathlib.Nat.{pow-suc, one-le-pow, mul-le-mul_right}
use overpass_titan_venue.Base.{
  ℕ, zero, suc, ◌+◌, ◌*◌, ◌^◌, ◌≤◌, ◌<◌, ◌≡◌, refl, ◌⊎◌, inl, inr, true, false, Outcome, ok, arith,
  Bool-cases, u64_max, saturating_mul, leb, ap, ◌∙◌,
}
use overpass_titan_venue.TradingVenue.{QuoteResult}
use overpass_titan_venue.Bounds.{
  expand_lower, expand_upper, find_boundaries_coarse, loop_fuel, scaling_factor,
}
use overpass_titan_venue.Bounds.Probe.{is_valid, NeverPanics, probe_lem}

module _ {F : Type 0} (f : ℕ → Outcome (QuoteResult F)) (total : NeverPanics f) where
  -- The probes at `x`, `2 * x`, … `2 ^ n * x` are all invalid.
  abbrev pub AllInvalid : ℕ → ℕ → Type 0
  AllInvalid n x = (i : ℕ) → i ≤ n → is_valid (f (2 ^ i * x)) ≡ false

  -- The first valid probe `high`, with an invalid one or the start `low` below.
  pub record LowerFound (n start low high : ℕ) : Type 0 where
    pub ordered : low < high
    pub doublings : ℕ
    pub few : doublings ≤ n
    pub power : 2 ^ doublings * high ≡ 2 ^ 63
    pub index : ℕ
    pub index_le : index ≤ 63
    pub is_power : high ≡ 2 ^ index
    pub valid : is_valid (f high) ≡ true
    pub below : (low ≡ start) ⊎ (is_valid (f low) ≡ false)

  expand_lower_found :
      (n low high : ℕ)
      → high < 2 ^ 64
      → is_valid (f high) ≡ true
      → expand_lower f (suc n) low high ≡ ok (low, high)
  unfolding expand_lower
  expand_lower_found n low high wide valid = ground (arith, probe_lem (f high) (total high wide))

  expand_lower_next :
      (n low high : ℕ)
      → 0 < high
      → high < 2 ^ 63
      → is_valid (f high) ≡ false
      → expand_lower f (suc n) low high ≡ expand_lower f n high (2 * high)
  unfolding expand_lower
  expand_lower_next n low high pos fits invalid =
      ground (arith, probe_lem (f high) (total high (omega arith)))

  expand_lower_last :
      (n low high : ℕ)
      → high ≡ 2 ^ 63
      → is_valid (f high) ≡ false
      → expand_lower f (suc n) low high ≡ ok (high, u64_max)
  unfolding expand_lower
  expand_lower_last n low high top invalid =
      ground (arith, probe_lem (f high) (total high (omega arith)))

  -- `2 ^ n * high` is the last power of two below the top, so `high` is below it too.
  pub power_fits : (n high : ℕ) → 2 ^ n * high ≡ 2 ^ 63 → high ≤ 2 ^ 63
  power_fits n high top =
      omega (arith, mul-le-mul_right {m = 1} {n = 2 ^ n} high (one-le-pow n 2 (omega arith)))

  power_next : (n high : ℕ) → 2 ^ suc n * high ≡ 2 ^ 63 → 2 ^ n * (2 * high) ≡ 2 ^ 63
  power_next n high top = omega (arith, ap (λ (t : ℕ). t * high) (pow-suc 2 n))

  AllInvalid-suc : (n x : ℕ) → is_valid (f x) ≡ false → AllInvalid n (2 * x) → AllInvalid (suc n) x
  AllInvalid-suc n x h all zero le = let e : 1 * x ≡ x = omega arith in rw e h
  AllInvalid-suc n x h all (suc i) le =
      let e : 2 ^ suc i * x ≡ 2 ^ i * (2 * x) =
        omega (arith, ap (λ (t : ℕ). t * x) (pow-suc 2 i)) in
      rw e (all i (omega arith))

  pub expand_lower_lem :
      (n k low high : ℕ)
      → low < high
      → 2 ^ n * high ≡ 2 ^ 63
      → k + n ≡ 63
      → high ≡ 2 ^ k
      → ((expand_lower f (suc n) low high ≡ ok (2 ^ 63, u64_max)) × AllInvalid n high)
        ⊎ ((a b : ℕ) × (expand_lower f (suc n) low high ≡ ok (a, b)) × LowerFound n low a b)
  expand_lower_lem zero k low high lt top sum pk = elim (Bool-cases (is_valid (f high))) [
    | inl valid ↦ inr (
      low,
      high,
      expand_lower_found 0 low high (omega arith) valid,
      record {
        ordered = lt;
        doublings = 0;
        few = omega arith;
        power = top;
        index = k;
        index_le = omega arith;
        is_power = pk;
        valid = valid;
        below = inl refl;
      },
    )
    | inr invalid ↦
        let e : high ≡ 2 ^ 63 = omega arith in
        inl (
          expand_lower_last 0 low high e invalid ∙ rw e refl,
          λ i le. let i0 : 2 ^ i * high ≡ high = zero_power i high le in rw i0 invalid,
        )
  ]
    where
      zero_power : (i x : ℕ) → i ≤ 0 → 2 ^ i * x ≡ x
      zero_power zero x le = omega arith
      zero_power (suc i) x le = absurd (omega arith)
  expand_lower_lem (suc n) k low high lt top sum pk =
      let fits : 2 * high ≤ 2 ^ 63 = power_fits n (2 * high) (power_next n high top) in
      elim (Bool-cases (is_valid (f high))) [
        | inl valid ↦ inr (
          low,
          high,
          expand_lower_found (suc n) low high (omega arith) valid,
          record {
            ordered = lt;
            doublings = suc n;
            few = omega arith;
            power = top;
            index = k;
            index_le = omega arith;
            is_power = pk;
            valid = valid;
            below = inl refl;
          },
        )
        | inr invalid ↦
            let next = expand_lower_next (suc n) low high (omega arith) (omega arith) invalid in
            elim (expand_lower_lem n (suc k) high (2 * high) (omega arith) (power_next n high top)
              (omega arith) (omega (arith, pow-suc 2 k))) [
                | inl (eq, all) ↦ inl (next ∙ eq, AllInvalid-suc n high invalid all)
                | inr (a, b, eq, found) ↦ inr (
                  a,
                  b,
                  next ∙ eq,
                  record {
                    ordered = found.ordered;
                    doublings = found.doublings;
                    few = omega (arith, found.few);
                    power = found.power;
                    index = found.index;
                    index_le = found.index_le;
                    is_power = found.is_power;
                    valid = found.valid;
                    below = inr (known_below a high found.below invalid);
                  },
                )
              ]
      ]
    where
      known_below :
          (a x : ℕ)
          → (a ≡ x) ⊎ (is_valid (f a) ≡ false)
          → is_valid (f x) ≡ false
          → is_valid (f a) ≡ false
      known_below a x (inl e) h = rw e h
      known_below a x (inr e) h = e

  -- The last valid probe `low`, with an invalid one or the top of `u64` above.
  pub record UpperFound (start low high : ℕ) : Type 0 where
    pub above : start ≤ low
    pub ordered : low ≤ high
    pub fits : high < 2 ^ 64
    pub apart : (low < high) ⊎ (high ≡ u64_max)
    pub valid : is_valid (f low) ≡ true
    pub beyond : (high ≡ u64_max) ⊎ (is_valid (f high) ≡ false)

  expand_upper_stop :
      (n low high : ℕ)
      → high < 2 ^ 64
      → is_valid (f high) ≡ false
      → expand_upper f (suc n) low high ≡ ok (low, high)
  unfolding expand_upper
  expand_upper_stop n low high wide invalid = ground (arith, probe_lem (f high) (total high wide))

  expand_upper_next :
      (n low high : ℕ)
      → 0 < high
      → high < 2 ^ 63
      → is_valid (f high) ≡ true
      → expand_upper f (suc n) low high ≡ expand_upper f n high (2 * high)
  unfolding expand_upper
  expand_upper_next n low high pos fits valid =
      ground (arith, probe_lem (f high) (total high (omega arith)))

  expand_upper_last :
      (n low high : ℕ)
      → 2 ^ 63 ≤ high
      → high < 2 ^ 64
      → is_valid (f high) ≡ true
      → expand_upper f (suc n) low high ≡ ok (high, u64_max)
  unfolding expand_upper
  expand_upper_last n low high top wide valid = ground (arith, probe_lem (f high) (total high wide))

  UpperFound-stop :
      (low high : ℕ)
      → low < high
      → high < 2 ^ 64
      → is_valid (f low) ≡ true
      → is_valid (f high) ≡ false
      → UpperFound low low high
  UpperFound-stop low high lt wide v h = record {
    above = omega arith;
    ordered = omega arith;
    fits = wide;
    apart = inl lt;
    valid = v;
    beyond = inr h;
  }

  UpperFound-last :
      (low high : ℕ)
      → low < high
      → high < 2 ^ 64
      → is_valid (f high) ≡ true
      → UpperFound low high u64_max
  UpperFound-last low high lt wide h = record {
    above = omega arith;
    ordered = omega arith;
    fits = omega arith;
    apart = inr refl;
    valid = h;
    beyond = inl refl;
  }

  pub expand_upper_lem :
      (n fuel low high : ℕ)
      → n < fuel
      → low < high
      → 2 ^ n * high ≡ 2 ^ 63
      → is_valid (f low) ≡ true
      → (a b : ℕ) × (expand_upper f fuel low high ≡ ok (a, b)) × UpperFound low a b
  expand_upper_lem n zero low high more lt top v = absurd (omega arith)
  expand_upper_lem zero (suc fuel) low high more lt top v = elim (Bool-cases (is_valid (f high))) [
    | inl valid ↦ (
      high,
      u64_max,
      expand_upper_last fuel low high (omega arith) (omega arith) valid,
      UpperFound-last low high lt (omega arith) valid,
    )
    | inr invalid ↦ (
      low,
      high,
      expand_upper_stop fuel low high (omega arith) invalid,
      UpperFound-stop low high lt (omega arith) v invalid,
    )
  ]
  expand_upper_lem (suc n) (suc fuel) low high more lt top v =
      let fits : 2 * high ≤ 2 ^ 63 = power_fits n (2 * high) (power_next n high top) in
      elim (Bool-cases (is_valid (f high))) [
        | inl valid ↦
            let (a, b, eq, found) =
              expand_upper_lem n fuel high (2 * high) (omega arith) (omega arith)
                (power_next n high top) valid in
            (
              a,
              b,
              expand_upper_next fuel low high (omega arith) (omega arith) valid ∙ eq,
              record {
                above = omega (arith, found.above);
                ordered = found.ordered;
                fits = found.fits;
                apart = found.apart;
                valid = found.valid;
                beyond = found.beyond;
              },
            )
        | inr invalid ↦ (
          low,
          high,
          expand_upper_stop fuel low high (omega arith) invalid,
          UpperFound-stop low high lt (omega arith) v invalid,
        )
      ]

  pub expand_upper_top :
      (fuel low high : ℕ)
      → low < high
      → high ≡ u64_max
      → is_valid (f low) ≡ true
      → (a b : ℕ) × (expand_upper f (suc fuel) low high ≡ ok (a, b)) × UpperFound low a b
  expand_upper_top fuel low high lt top v = elim (Bool-cases (is_valid (f high))) [
    | inl valid ↦ (
      high,
      u64_max,
      expand_upper_last fuel low high (omega arith) (omega arith) valid,
      UpperFound-last low high lt (omega arith) valid,
    )
    | inr invalid ↦ (
      low,
      high,
      expand_upper_stop fuel low high (omega arith) invalid,
      UpperFound-stop low high lt (omega arith) v invalid,
    )
  ]

  -- The second loop from the first valid probe `high`.
  expand_upper_from :
      (n start low high : ℕ)
      → n ≤ 63
      → LowerFound n start low high
      → (a b : ℕ) × (expand_upper f loop_fuel high (saturating_mul u64_max high scaling_factor)
          ≡ ok (a, b))
        × UpperFound high a b
  expand_upper_from n start low high le found = go found.doublings found.few found.power
    where
      go :
          (d : ℕ)
          → d ≤ n
          → 2 ^ d * high ≡ 2 ^ 63
          → (a b : ℕ) × (expand_upper f loop_fuel high (saturating_mul u64_max high scaling_factor)
              ≡ ok (a, b))
            × UpperFound high a b
      go zero few power = expand_upper_top 63 high _ (omega arith) (omega arith) found.valid
      go (suc d) few power =
          let fits : 2 * high ≤ 2 ^ 63 = power_fits d (2 * high) (power_next d high power) in
          let e : saturating_mul u64_max high scaling_factor ≡ 2 * high = omega arith in
          rw e (
            expand_upper_lem d loop_fuel high (2 * high) (omega arith)
              (omega (arith, found.ordered)) (power_next d high power) found.valid)

  -- The coarse search finds no valid power of two, or it brackets both ends.
  pub find_boundaries_coarse_lem :
      ((find_boundaries_coarse f ≡ ok (2 ^ 63, u64_max, u64_max, u64_max)) × AllInvalid 63 1)
      ⊎ ((low high a b : ℕ) × (find_boundaries_coarse f ≡ ok (low, high, a, b))
          × LowerFound 63 0 low high
          × UpperFound high a b)
  unfolding find_boundaries_coarse
  find_boundaries_coarse_lem = elim (expand_lower_lem 63 0 0 1 (omega arith) refl refl refl) [
    | inl (eq, all) ↦ inl (rw eq, all)
    | inr (low, high, eq, found) ↦
        let (a, b, eq', found') = expand_upper_from 63 0 low high (omega arith) found in
        let fits : high ≤ 2 ^ 63 = power_fits found.doublings high found.power in
        let up : leb (saturating_mul u64_max high scaling_factor) high ≡ false =
          ground (arith, found.ordered) in
        inr (low, high, a, b, rw eq (rw up (rw eq')), found, found')
  ]
