-- ===== src/SwapRoute/Borsh.antt =====
-- The documented layout of Borsh for the two types, that the tests of `src/swap_route/mod.rs`
-- write out, and a function for it.
use overpass_titan_venue.Base.{ℕ, List, [], ◌∷◌, ◌++◌, ◌≡◌, refl}
use overpass_titan_venue.Common.Bytes.{to_le_bytes}
use overpass_titan_venue.SwapRoute.{Venue, raydium_amm, overpass, SwapSpecInputV2, BorshSerialize}

-- A variant is its index and its fields; a structure is its fields in order; a number is in
-- little-endian order.
pub record IsBorsh (b : BorshSerialize) : Type 0 where
  pub raydium_lem : b.to_borsh_bytes raydium_amm ≡ 0 ∷ []
  pub overpass_lem : (disc : List ℕ) → b.to_borsh_bytes (overpass disc) ≡ 1 ∷ disc
  pub serialize_lem :
      (s : SwapSpecInputV2)
      → b.serialize s
        ≡ b.to_borsh_bytes s.venue
          ++ (s.from ∷ s.to ∷ (to_le_bytes 4 s.weight_nanos ++ (s.n_accounts ∷ [])))

abbrev venue_bytes : Venue → List ℕ
venue_bytes raydium_amm = 0 ∷ []
venue_bytes (overpass disc) = 1 ∷ disc

abbrev pub native_borsh : BorshSerialize
native_borsh = record {
  to_borsh_bytes = venue_bytes;
  serialize = λ s.
      venue_bytes s.venue
      ++ (s.from ∷ s.to ∷ (to_le_bytes 4 s.weight_nanos ++ (s.n_accounts ∷ [])));
}

pub native_borsh-IsBorsh : IsBorsh native_borsh
native_borsh-IsBorsh = record {
  raydium_lem = refl;
  overpass_lem = λ disc. refl;
  serialize_lem = λ s. refl;
}
