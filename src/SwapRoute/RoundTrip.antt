-- ===== src/SwapRoute/RoundTrip.antt =====
-- A reader of the data of the route instruction, after its layout, and the round trip.
use overpass_titan_venue.Base.{
  ℕ, zero, suc, ◌%◌, ◌^◌, ◌<◌, ◌≡◌, refl, ◌∙◌, ap, List, [], ◌∷◌, ◌++◌, Option, none, some, length,
  ◌==◌, ◌&&◌, if◌then◌else◌, arith, IsU8, IsU64,
}
use mathlib.Core.List.{append_assoc}
use overpass_titan_venue.Common.Bytes.{from_le_bytes, to_le_bytes}
use overpass_titan_venue.Common.Bytes.RoundTrip.{length-to_le_bytes, from_le_bytes-to_le_bytes}
use overpass_titan_venue.Shares.{and_then}
use overpass_titan_venue.SwapRoute.{
  Venue, raydium_amm, overpass, SwapSpecInputV2, BorshSerialize, serialize_swaps,
  encode_swap_route_v3_data,
}
use overpass_titan_venue.SwapRoute.Borsh.{IsBorsh}

-- The first `n` bytes and the rest.
abbrev split : ℕ → List ℕ → Option (List ℕ × List ℕ)
split zero bytes = some ([], bytes)
split (suc n) [] = none
split (suc n) (b ∷ bytes) = and_then (split n bytes) (λ r. some (b ∷ r.0, r.1))

unfoldable pub read_number : ℕ → List ℕ → Option (ℕ × List ℕ)
read_number w bytes = and_then (split w bytes) (λ r. some (from_le_bytes r.0, r.1))

unfoldable pub read_venue : List ℕ → Option (Venue × List ℕ)
read_venue [] = none
read_venue (zero ∷ bytes) = some (raydium_amm, bytes)
read_venue (suc zero ∷ bytes) = and_then (split 8 bytes) (λ r. some (overpass r.0, r.1))
read_venue (suc (suc n) ∷ bytes) = none

-- The fields after the venue: two indices, the weight and the count.
unfoldable pub read_fields : Venue → List ℕ → Option (SwapSpecInputV2 × List ℕ)
read_fields venue bytes = and_then (read_number 1 bytes) (λ from.
    and_then (read_number 1 from.1) (λ to. and_then (read_number 4 to.1) (λ weight.
      and_then (read_number 1 weight.1) (λ count. some (
        record {
          venue = venue;
          from = from.0;
          to = to.0;
          weight_nanos = weight.0;
          n_accounts = count.0;
        },
        count.1,
      )))))

unfoldable pub read_swap : List ℕ → Option (SwapSpecInputV2 × List ℕ)
read_swap bytes = and_then (read_venue bytes) (λ r. read_fields r.0 r.1)

unfoldable pub read_swaps : ℕ → List ℕ → Option (List SwapSpecInputV2 × List ℕ)
read_swaps zero bytes = some ([], bytes)
read_swaps (suc n) bytes =
    and_then (read_swap bytes) (λ r. and_then (read_swaps n r.1) (λ q. some (r.0 ∷ q.0, q.1)))

pub record RouteData : Type 0 where
  pub amount : ℕ
  pub mints : ℕ
  pub swaps : List SwapSpecInputV2

-- The discriminator, the amount, the mints, the number of legs and the legs, and nothing else.
unfoldable pub decode_route : List ℕ → Option RouteData
decode_route bytes = and_then (read_number 1 bytes) (λ disc.
    and_then (read_number 8 disc.1) (λ amount. and_then (read_number 1 amount.1) (λ mints.
      and_then (read_number 4 mints.1) (λ count. and_then (read_swaps count.0 count.1) (λ swaps.
        if disc.0 == 42 && length swaps.1 == 0
        then some (record { amount = amount.0; mints = mints.0; swaps = swaps.0 })
        else none)))))

split-append : (xs ys : List ℕ) → split (length xs) (xs ++ ys) ≡ some (xs, ys)
split-append [] ys = refl
split-append (x ∷ xs) ys = rw (split-append xs ys) refl

read_byte : (n : ℕ) (rest : List ℕ) → read_number 1 (n ∷ rest) ≡ some (n, rest)
unfolding read_number from_le_bytes
read_byte n rest = ap (λ (k : ℕ). some (k, rest)) (omega arith)

read_number-to_le_bytes :
    (w n : ℕ) (rest : List ℕ)
    → n < 256 ^ w
    → read_number w (to_le_bytes w n ++ rest) ≡ some (n, rest)
unfolding read_number
read_number-to_le_bytes w n rest h =
    let whole : split w (to_le_bytes w n ++ rest) ≡ some (to_le_bytes w n, rest) =
      rw (length-to_le_bytes w n) at (split-append (to_le_bytes w n) rest) in
    rw (whole, from_le_bytes-to_le_bytes w n h) refl

-- A discriminator has eight bytes.
abbrev pub IsVenue : Venue → Type 0
IsVenue raydium_amm = Unit {0}
IsVenue (overpass disc) = length disc ≡ 8

-- The fields are within the widths of their types.
pub record IsSpec (s : SwapSpecInputV2) : Type 0 where
  pub venue_fits : IsVenue s.venue
  pub from_fits : IsU8 s.from
  pub to_fits : IsU8 s.to
  pub weight_fits : s.weight_nanos < 2 ^ 32
  pub count_fits : IsU8 s.n_accounts

pub data AreSpecs : List SwapSpecInputV2 → Type 0 where
  none_left : AreSpecs []
  one_more :
      (s : SwapSpecInputV2) (swaps : List SwapSpecInputV2)
      → IsSpec s
      → AreSpecs swaps
      → AreSpecs (s ∷ swaps)

read_fields_lem :
    (s : SwapSpecInputV2) (rest : List ℕ)
    → IsSpec s
    → read_fields s.venue (s.from ∷ s.to ∷ (to_le_bytes 4 s.weight_nanos ++ (s.n_accounts ∷ rest)))
      ≡ some (s, rest)
unfolding read_fields
read_fields_lem s rest fits =
    rw
      (
        read_byte s.from (s.to ∷ (to_le_bytes 4 s.weight_nanos ++ (s.n_accounts ∷ rest))),
        read_byte s.to (to_le_bytes 4 s.weight_nanos ++ (s.n_accounts ∷ rest)),
        read_number-to_le_bytes 4 s.weight_nanos (s.n_accounts ∷ rest)
            (omega (arith, fits.weight_fits)),
        read_byte s.n_accounts rest,
      )
      refl

module _ ⦃b : BorshSerialize⦄ (laws : IsBorsh b) where
  read_venue-to_borsh_bytes :
      (v : Venue) (rest : List ℕ)
      → IsVenue v
      → read_venue (b.to_borsh_bytes v ++ rest) ≡ some (v, rest)
  unfolding read_venue
  read_venue-to_borsh_bytes raydium_amm rest fits = rw laws.raydium_lem refl
  read_venue-to_borsh_bytes (overpass disc) rest fits =
      rw (laws.overpass_lem disc, rw fits at (split-append disc rest)) refl

  serialize-append :
      (s : SwapSpecInputV2) (rest : List ℕ)
      → b.serialize s ++ rest
        ≡ b.to_borsh_bytes s.venue
          ++ (s.from ∷ s.to ∷ (to_le_bytes 4 s.weight_nanos ++ (s.n_accounts ∷ rest)))
  serialize-append s rest = rw (laws.serialize_lem s) (
      append_assoc (b.to_borsh_bytes s.venue) _ rest
      ∙ ap (λ (t : List ℕ). b.to_borsh_bytes s.venue ++ (s.from ∷ s.to ∷ t))
          (append_assoc (to_le_bytes 4 s.weight_nanos) (s.n_accounts ∷ []) rest))

  read_swap-serialize :
      (s : SwapSpecInputV2) (rest : List ℕ)
      → IsSpec s
      → read_swap (b.serialize s ++ rest) ≡ some (s, rest)
  unfolding read_swap
  read_swap-serialize s rest fits =
      rw
        (
          serialize-append s rest,
          read_venue-to_borsh_bytes s.venue
              (s.from ∷ s.to ∷ (to_le_bytes 4 s.weight_nanos ++ (s.n_accounts ∷ rest)))
              fits.venue_fits,
        )
        (read_fields_lem s rest fits)

  read_swaps-serialize_swaps :
      (swaps : List SwapSpecInputV2)
      → AreSpecs swaps
      → read_swaps (length swaps) (serialize_swaps swaps) ≡ some (swaps, [])
  unfolding read_swaps serialize_swaps
  read_swaps-serialize_swaps [] fits = refl
  read_swaps-serialize_swaps (s ∷ swaps) (one_more _ _ fit fits) =
      rw (read_swap-serialize s (serialize_swaps swaps) fit, read_swaps-serialize_swaps swaps fits)
        refl

  -- Where Borsh lays out the legs as documented, an amount, a number of mints and legs within the
  -- widths of their types, fewer than 2^32 of them, are read back from the data that
  -- `encode_swap_route_v3_data` writes, and nothing is left over.
  pub decode_route-encode_swap_route_v3_data :
      (amount mints : ℕ) (swaps : List SwapSpecInputV2)
      → IsU64 amount
      → IsU8 mints
      → length swaps < 2 ^ 32
      → AreSpecs swaps
      → decode_route (encode_swap_route_v3_data amount mints swaps)
        ≡ some (record { amount = amount; mints = mints; swaps = swaps })
  unfolding decode_route encode_swap_route_v3_data
  decode_route-encode_swap_route_v3_data amount mints swaps ha hm hn fits =
      let count : length swaps % 2 ^ 32 ≡ length swaps = omega arith in
      rw
        (
          count,
          read_byte 42 (
              to_le_bytes 8 amount
              ++ (mints ∷ (to_le_bytes 4 (length swaps) ++ serialize_swaps swaps))),
          read_number-to_le_bytes 8 amount
              (mints ∷ (to_le_bytes 4 (length swaps) ++ serialize_swaps swaps)) (omega (arith, ha)),
          read_byte mints (to_le_bytes 4 (length swaps) ++ serialize_swaps swaps),
          read_number-to_le_bytes 4 (length swaps) (serialize_swaps swaps) (omega (arith, hn)),
          read_swaps-serialize_swaps swaps fits,
        )
        refl
