-- ===== src/Bounds/Refine.antt =====
-- The binary searches `refine_lower` and `refine_upper` of `src/trading_venue/bounds.rs`.
use native.Mathlib.Nat.{pow-suc}
use native.Mathlib.Decide.{dec_lt}
use overpass_titan_venue.Base.{
  ℕ, zero, suc, ◌+◌, ◌*◌, ◌/◌, ◌^◌, ◌≤◌, ◌<◌, ◌≡◌, refl, ◌⊎◌, inl, inr, Bool, true, false, Outcome,
  ok, arith, Bool-cases, if◌then◌else◌,
}
use overpass_titan_venue.TradingVenue.{QuoteResult}
use overpass_titan_venue.Bounds.{narrow_lower, narrow_upper, refine_lower, refine_upper}
use overpass_titan_venue.Bounds.Probe.{is_valid, NeverPanics, probe_lem}

module _ {F : Type 0} (f : ℕ → Outcome (QuoteResult F)) (total : NeverPanics f) where
  -- Two inputs at most 100 apart, the lower one not valid and the upper one valid, unless they
  -- are the ends `low` and `high` of the interval that was searched.
  pub record Edge (low high a b : ℕ) : Type 0 where
    pub from_low : low ≤ a
    pub below : a < b
    pub to_high : b ≤ high
    pub near : b ≤ a + 100

  abbrev pub LowerEdge : ℕ → ℕ → ℕ → ℕ → Type 0
  LowerEdge low high a b =
      Edge low high a b
      × ((a ≡ low) ⊎ (is_valid (f a) ≡ false))
      × ((b ≡ high) ⊎ (is_valid (f b) ≡ true))

  abbrev pub UpperEdge : ℕ → ℕ → ℕ → ℕ → Type 0
  UpperEdge low high a b =
      Edge low high a b
      × ((a ≡ low) ⊎ (is_valid (f a) ≡ true))
      × ((b ≡ high) ⊎ (is_valid (f b) ≡ false))

  -- One round of each loop.
  narrow_lower_stop :
      (n low high : ℕ) → low < high → high ≤ low + 100 → narrow_lower f (suc n) low high ≡ ok high
  unfolding narrow_lower
  narrow_lower_stop n low high lt near = ground arith

  narrow_lower_step :
      (n low high : ℕ)
      → low + 100 < high
      → high < 2 ^ 64
      → narrow_lower f (suc n) low high ≡ (
          if is_valid (f (high / 2 + low / 2))
          then narrow_lower f n low (high / 2 + low / 2)
          else narrow_lower f n (high / 2 + low / 2) high)
  unfolding narrow_lower
  narrow_lower_step n low high far wide =
      ground (arith, probe_lem (f (high / 2 + low / 2)) (total _ (omega arith)))

  narrow_upper_stop :
      (n low high : ℕ) → low < high → high ≤ low + 100 → narrow_upper f (suc n) low high ≡ ok low
  unfolding narrow_upper
  narrow_upper_stop n low high lt near = ground arith

  narrow_upper_step :
      (n low high : ℕ)
      → low + 100 < high
      → high < 2 ^ 64
      → narrow_upper f (suc n) low high ≡ (
          if is_valid (f (high / 2 + low / 2))
          then narrow_upper f n (high / 2 + low / 2) high
          else narrow_upper f n low (high / 2 + low / 2))
  unfolding narrow_upper
  narrow_upper_step n low high far wide =
      ground (arith, probe_lem (f (high / 2 + low / 2)) (total _ (omega arith)))

  -- The midpoint that becomes an end has the validity that was found there.
  known_end :
      (x mid : ℕ) {v : Bool}
      → (x ≡ mid) ⊎ (is_valid (f x) ≡ v)
      → is_valid (f mid) ≡ v
      → is_valid (f x) ≡ v
  known_end x mid (inl e) h = rw e h
  known_end x mid (inr e) h = e

  pub narrow_lower_lem :
      (n low high : ℕ)
      → low < high
      → high < 2 ^ 64
      → high ≤ low + 98 * 2 ^ n + 2
      → (a b : ℕ) × (narrow_lower f (suc n) low high ≡ ok b) × LowerEdge low high a b
  narrow_lower_lem zero low high lt wide fits =
      (low, high, narrow_lower_stop 0 low high lt (omega arith), (omega arith, inl refl, inl refl))
  narrow_lower_lem (suc n) low high lt wide fits = elim (dec_lt (low + 100) high) [
    | no near ↦ (
      low,
      high,
      narrow_lower_stop (suc n) low high lt (omega arith),
      (omega arith, inl refl, inl refl),
    )
    | yes far ↦
        let mid : ℕ = high / 2 + low / 2 in
        let half : 98 * 2 ^ suc n ≡ 98 * 2 ^ n + 98 * 2 ^ n = omega (arith, pow-suc 2 n) in
        elim (Bool-cases (is_valid (f mid))) [
          | inl valid ↦
              let (a, b, eq, (edge, la, hb)) =
                narrow_lower_lem n low mid (omega arith) (omega arith) (omega arith) in
              (
                a,
                b,
                rw (narrow_lower_step (suc n) low high far wide, valid) eq,
                (omega (arith, edge), la, inr (known_end b mid hb valid)),
              )
          | inr invalid ↦
              let (a, b, eq, (edge, la, hb)) =
                narrow_lower_lem n mid high (omega arith) (omega arith) (omega arith) in
              (
                a,
                b,
                rw (narrow_lower_step (suc n) low high far wide, invalid) eq,
                (omega (arith, edge), inr (known_end a mid la invalid), hb),
              )
        ]
  ]

  pub narrow_upper_lem :
      (n low high : ℕ)
      → low < high
      → high < 2 ^ 64
      → high ≤ low + 98 * 2 ^ n + 2
      → (a b : ℕ) × (narrow_upper f (suc n) low high ≡ ok a) × UpperEdge low high a b
  narrow_upper_lem zero low high lt wide fits =
      (low, high, narrow_upper_stop 0 low high lt (omega arith), (omega arith, inl refl, inl refl))
  narrow_upper_lem (suc n) low high lt wide fits = elim (dec_lt (low + 100) high) [
    | no near ↦ (
      low,
      high,
      narrow_upper_stop (suc n) low high lt (omega arith),
      (omega arith, inl refl, inl refl),
    )
    | yes far ↦
        let mid : ℕ = high / 2 + low / 2 in
        let half : 98 * 2 ^ suc n ≡ 98 * 2 ^ n + 98 * 2 ^ n = omega (arith, pow-suc 2 n) in
        elim (Bool-cases (is_valid (f mid))) [
          | inl valid ↦
              let (a, b, eq, (edge, la, hb)) =
                narrow_upper_lem n mid high (omega arith) (omega arith) (omega arith) in
              (
                a,
                b,
                rw (narrow_upper_step (suc n) low high far wide, valid) eq,
                (omega (arith, edge), inr (known_end a mid la valid), hb),
              )
          | inr invalid ↦
              let (a, b, eq, (edge, la, hb)) =
                narrow_upper_lem n low mid (omega arith) (omega arith) (omega arith) in
              (
                a,
                b,
                rw (narrow_upper_step (suc n) low high far wide, invalid) eq,
                (omega (arith, edge), la, inr (known_end b mid hb invalid)),
              )
        ]
  ]

  -- The fuel of the loops is enough for every interval of `u64`.
  pub refine_lower_lem :
      (low high : ℕ)
      → low < high
      → high < 2 ^ 64
      → (a b : ℕ) × (refine_lower f low high ≡ ok b) × LowerEdge low high a b
  unfolding refine_lower
  refine_lower_lem low high lt wide =
      rw (probe_lem (f low) (total low (omega arith)), probe_lem (f high) (total high wide))
        (narrow_lower_lem 63 low high lt wide (omega arith))

  pub refine_upper_lem :
      (low high : ℕ)
      → low < high
      → high < 2 ^ 64
      → (a b : ℕ) × (refine_upper f low high ≡ ok a) × UpperEdge low high a b
  unfolding refine_upper
  refine_upper_lem low high lt wide =
      rw (probe_lem (f low) (total low (omega arith)), probe_lem (f high) (total high wide))
        (narrow_upper_lem 63 low high lt wide (omega arith))

  narrow_upper_same : (n x : ℕ) → narrow_upper f (suc n) x x ≡ ok x
  unfolding narrow_upper
  narrow_upper_same n x = ground arith

  pub refine_upper_same : (x : ℕ) → x < 2 ^ 64 → refine_upper f x x ≡ ok x
  unfolding refine_upper
  refine_upper_same x wide = rw (probe_lem (f x) (total x wide)) (narrow_upper_same 63 x)
