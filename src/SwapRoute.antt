-- ===== src/SwapRoute.antt =====
-- `src/swap_route/mod.rs`: a leg of a route from the swap instruction of a venue, and the data of
-- the route instruction. `PoolProtocol` is that of `src/trading_venue/protocol.rs`, and
-- `AccountMeta` and `Instruction` have the fields of the `solana_instruction` crate.
pub mod Borsh
pub mod Leg
pub mod RoundTrip
mod Tests
use overpass_titan_venue.Base.{
  ℕ, ◌+◌, ◌%◌, ◌^◌, Bool, false, List, [], ◌∷◌, ◌++◌, Pubkey, Outcome, ok, err, ◌>>=◌, bytes_eq,
  length, take, ltb, if◌then◌else◌, unsupported_venue, static_str,
}
use overpass_titan_venue.TradingVenue.{QuoteRequest}
use overpass_titan_venue.Common.Bytes.{to_le_bytes}
use overpass_titan_venue.Common.Programs.{default_pubkey}

abbrev pub swap_route_v3_discriminator : ℕ
swap_route_v3_discriminator = 42

-- The discriminator of an instruction is its first eight bytes.
pub data Venue : Type 0 where
  raydium_amm : Venue
  overpass : List ℕ → Venue

pub record SwapSpecInputV2 : Type 0 where
  pub venue : Venue
  pub from : ℕ
  pub to : ℕ
  pub weight_nanos : ℕ
  pub n_accounts : ℕ

pub data PoolProtocol : Type 0 where
  protocol_overpass protocol_raydium_amm : PoolProtocol

pub record AccountMeta : Type 0 where
  pub pubkey : Pubkey
  pub is_signer : Bool
  pub is_writable : Bool

pub record Instruction : Type 0 where
  pub program_id : Pubkey
  pub accounts : List AccountMeta
  pub data_bytes : List ℕ

-- The methods of `TradingVenue` that a leg is built from.
pub record LegVenue : Type 0 where
  pub protocol : PoolProtocol
  pub venue_program_id : Pubkey
  pub generate_swap_instruction : QuoteRequest → Pubkey → Outcome Instruction

-- The derived `BorshSerialize` of the two types; `borsh::to_vec` of a venue is `to_borsh_bytes`.
pub record BorshSerialize : Type 0 where
  pub to_borsh_bytes : Venue → List ℕ
  pub serialize : SwapSpecInputV2 → List ℕ

-- The match on the protocol of the venue.
unfoldable pub venue_of : PoolProtocol → LegVenue → QuoteRequest → Outcome Venue
venue_of protocol_raydium_amm venue request = ok raydium_amm
venue_of protocol_overpass venue request = do
  ix ← venue.generate_swap_instruction request default_pubkey
  if ltb (length ix.data_bytes) 8
      then err (unsupported_venue (static_str "overpass ix missing discriminator"))
      else ok (overpass (take 8 ix.data_bytes))

unfoldable pub protocol_to_venue : LegVenue → QuoteRequest → Outcome Venue
unfolding venue_of
protocol_to_venue venue request = venue_of venue.protocol venue request

unfoldable pub clear_signer : Pubkey → AccountMeta → AccountMeta
clear_signer titan_pda acc =
    if bytes_eq acc.pubkey titan_pda then record acc { is_signer = false } else acc

unfoldable pub clear_signers : Pubkey → List AccountMeta → List AccountMeta
unfolding clear_signer
clear_signers titan_pda [] = []
clear_signers titan_pda (acc ∷ accounts) =
    clear_signer titan_pda acc ∷ clear_signers titan_pda accounts

unfoldable pub assemble_leg_accounts : Instruction → Pubkey → Pubkey → List AccountMeta
unfolding clear_signers
assemble_leg_accounts swap_ix titan_pda venue_program_id =
    clear_signers titan_pda swap_ix.accounts
    ++ (record { pubkey = venue_program_id; is_signer = false; is_writable = false } ∷ [])

unfoldable pub build_swap_leg :
    LegVenue → QuoteRequest → Pubkey → ℕ → ℕ → ℕ → Outcome (SwapSpecInputV2 × List AccountMeta)
unfolding assemble_leg_accounts protocol_to_venue
build_swap_leg venue request titan_pda from to weight_nanos = do
  swap_ix ← venue.generate_swap_instruction request titan_pda
  let accounts = assemble_leg_accounts swap_ix titan_pda venue.venue_program_id
  route_venue ← protocol_to_venue venue request
  ok (
    record {
      venue = route_venue;
      from = from;
      to = to;
      weight_nanos = weight_nanos;
      n_accounts = length accounts % 2 ^ 8;
    },
    accounts,
  )

unfoldable pub serialize_swaps : ⦃b : BorshSerialize⦄ → List SwapSpecInputV2 → List ℕ
serialize_swaps [] = []
serialize_swaps ⦃b⦄ (swap ∷ swaps) = b.serialize swap ++ serialize_swaps swaps

unfoldable pub encode_swap_route_v3_data :
    ⦃b : BorshSerialize⦄ → ℕ → ℕ → List SwapSpecInputV2 → List ℕ
unfolding serialize_swaps
encode_swap_route_v3_data amount mints swaps =
    swap_route_v3_discriminator
    ∷ (to_le_bytes 8 amount
        ++ (mints ∷ (to_le_bytes 4 (length swaps % 2 ^ 32) ++ serialize_swaps swaps)))
