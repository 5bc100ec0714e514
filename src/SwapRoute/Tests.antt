-- ===== src/SwapRoute/Tests.antt =====
-- The runs of the tests of `src/swap_route/mod.rs`, and the theorems at them.
use overpass_titan_venue.Base.{
  ◌≡◌, ◌≢◌, refl, true, false, [], ◌∷◌, some, ok, panic, arith, Pubkey, ◌>>=◌,
}
use overpass_titan_venue.Base.Safe.{Safe}
use overpass_titan_venue.TradingVenue.{QuoteRequest, exact_in}
use overpass_titan_venue.Common.Bytes.{to_le_bytes}
use overpass_titan_venue.SwapRoute.{
  raydium_amm, overpass, SwapSpecInputV2, protocol_overpass, Instruction, LegVenue, venue_of,
  protocol_to_venue, clear_signer, clear_signers, assemble_leg_accounts, build_swap_leg,
  serialize_swaps, encode_swap_route_v3_data,
}
use overpass_titan_venue.SwapRoute.Borsh.{native_borsh, native_borsh-IsBorsh}
use overpass_titan_venue.SwapRoute.Leg.{IsLeg, LegFailure, build_swap_leg-IsLeg}
use overpass_titan_venue.SwapRoute.RoundTrip.{
  AreSpecs, none_left, one_more, decode_route, decode_route-encode_swap_route_v3_data,
}

abbrev titan : Pubkey
titan = 9 ∷ []

-- An instruction that the route's account signs, and a second account.
abbrev instruction : Instruction
instruction = record {
  program_id = 7 ∷ [];
  accounts =
      record { pubkey = titan; is_signer = true; is_writable = true }
      ∷ record { pubkey = 8 ∷ []; is_signer = true; is_writable = false }
      ∷ [];
  data_bytes = 1 ∷ 2 ∷ 3 ∷ 4 ∷ 5 ∷ 6 ∷ 7 ∷ 8 ∷ 9 ∷ [];
}

abbrev venue : LegVenue
venue = record {
  protocol = protocol_overpass;
  venue_program_id = 7 ∷ [];
  generate_swap_instruction = λ request user. ok instruction;
}

abbrev request : QuoteRequest
request = record { input_mint = 1 ∷ []; output_mint = 2 ∷ []; amount = 1_000; swap_type = exact_in }

abbrev spec : SwapSpecInputV2
spec = record {
  venue = overpass (1 ∷ 2 ∷ 3 ∷ 4 ∷ 5 ∷ 6 ∷ 7 ∷ 8 ∷ []);
  from = 0;
  to = 1;
  weight_nanos = 1_000_000_000;
  n_accounts = 3;
}

abbrev raydium_spec : SwapSpecInputV2
raydium_spec = record spec { venue = raydium_amm; from = 1; to = 0 }

leg_runs :
    build_swap_leg venue request titan 0 1 1_000_000_000
    ≡ ok (
      spec,
      record { pubkey = titan; is_signer = false; is_writable = true }
          ∷ record { pubkey = 8 ∷ []; is_signer = true; is_writable = false }
          ∷ record { pubkey = 7 ∷ []; is_signer = false; is_writable = false }
          ∷ [],
    )
unfolding build_swap_leg venue_of protocol_to_venue clear_signer clear_signers assemble_leg_accounts
    ◌>>=◌
leg_runs = refl

route_runs :
    encode_swap_route_v3_data ⦃b = native_borsh⦄ 5_000 2 (raydium_spec ∷ [])
    ≡ 42 ∷ 136 ∷ 19 ∷ 0 ∷ 0 ∷ 0 ∷ 0 ∷ 0 ∷ 0 ∷ 2 ∷ 1 ∷ 0 ∷ 0 ∷ 0 ∷ 0 ∷ 1 ∷ 0 ∷ 0 ∷ 202 ∷ 154 ∷ 59 ∷ 3
      ∷ []
unfolding encode_swap_route_v3_data serialize_swaps to_le_bytes
route_runs = refl

calm : (user : Pubkey) → venue.generate_swap_instruction request user ≢ panic
calm user h = absurd cc

build_swap_leg-IsLeg_example :
    Safe
      (IsLeg venue request titan 0 1 1_000_000_000)
      (LegFailure venue request titan)
      (build_swap_leg venue request titan 0 1 1_000_000_000)
build_swap_leg-IsLeg_example = build_swap_leg-IsLeg venue request titan 0 1 1_000_000_000 calm

two_specs : AreSpecs (spec ∷ raydium_spec ∷ [])
two_specs =
    one_more _ _
      (record {
        venue_fits = refl;
        from_fits = omega arith;
        to_fits = omega arith;
        weight_fits = omega arith;
        count_fits = omega arith;
      })
      (one_more _ _
        (record {
          venue_fits = tt;
          from_fits = omega arith;
          to_fits = omega arith;
          weight_fits = omega arith;
          count_fits = omega arith;
        })
        none_left)

decode_route-encode_swap_route_v3_data_example :
    decode_route (encode_swap_route_v3_data ⦃b = native_borsh⦄ 5_000 2 (spec ∷ raydium_spec ∷ []))
    ≡ some (record { amount = 5_000; mints = 2; swaps = spec ∷ raydium_spec ∷ [] })
decode_route-encode_swap_route_v3_data_example =
    decode_route-encode_swap_route_v3_data ⦃b = native_borsh⦄ native_borsh-IsBorsh 5_000 2
      (spec ∷ raydium_spec ∷ []) (omega arith) (omega arith) (omega arith) two_specs
