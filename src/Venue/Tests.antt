-- ===== src/Venue/Tests.antt =====
-- A venue over a Klend reserve: runs of its quotes, and the theorems at it.
use overpass_titan_venue.Base.{
  ℕ, ◌*◌, ◌/◌, ◌^◌, ◌≡◌, ◌≢◌, refl, ◌∙◌, true, false, [], ◌∷◌, List, none, some, Pubkey, Outcome,
  ok, panic, arith, IsU64, ltb, ◌>>=◌,
}
use overpass_titan_venue.Base.Safe.{Safe}
use overpass_titan_venue.Uint.Native.{native_uint, native_uint-IsUint}
use overpass_titan_venue.Int.{pos}
use overpass_titan_venue.Common.State.{WrapperVault}
use overpass_titan_venue.Common.Direction.{Direction, deposit, withdraw, detect}
use overpass_titan_venue.TradingVenue.{QuoteRequest, QuoteResult, exact_in}
use overpass_titan_venue.TradingVenue.Methods.{TokenInfo}
use overpass_titan_venue.Klend.Fixed.Native.{native_fixed, native_fixed-IsFixed}
use overpass_titan_venue.Marginfi.Signed.Native.{native_signed}
use overpass_titan_venue.Klend.Samples.{
  reserve, vault, config, accrued, reserve_accrues, reserve_total, reserve-IsSolvent,
}
use overpass_titan_venue.Klend.Math.Quotes.{
  quote_deposit-IsKlendDeposit, quote_withdraw-IsKlendWithdrawal,
}
use overpass_titan_venue.Venue.Sources.{Source, klend_source, source_deposit, source_withdraw}
use overpass_titan_venue.Venue.Prices.{
  Double, halve, insert, sort, dedup, to_option, new_part, parts_of, raise_to, raise, price_parts,
  later, last_at, or_first, price_at,
}
use overpass_titan_venue.Venue.Prices.Order.{IsOrder}
use overpass_titan_venue.Venue.Prices.Total.{NeverRises, price_parts_falling}
use overpass_titan_venue.Venue.{
  OverpassVenue, source_quote, quote, initialized, is_some, is_lulo, directions_num, refresh_parts,
}
use overpass_titan_venue.Venue.Refresh.{HasFallingPrices, refresh_parts-HasFallingPrices}
use overpass_titan_venue.Venue.Creations.{
  overpass_program_id, create_klend, create_lulo, ParsedInstruction, find_creation, creation_of,
  collect, parse_pool_creations,
}
use overpass_titan_venue.Venue.Creations.Spec.{Parses, parse_pool_creations-Parses}
use overpass_titan_venue.SwapRoute.{protocol_overpass}
use overpass_titan_venue.Venue.Answers.{IsAnswer}
use overpass_titan_venue.Venue.Quotes.{IsCalm, quote-initialized}
use overpass_titan_venue.Venue.Directions.{AreDirections, directions_num-AreDirections}

-- Fractions of forty bits stand for `f64`.
abbrev forty_bits : Double ℕ
forty_bits = record { of_u64 = λ a. a; div = λ a b. a * 2 ^ 40 / b; lt = ltb; zero_price = 0 }

forty_bits-IsOrder : IsOrder forty_bits
forty_bits-IsOrder = record {
  irreflexive = λ p. ground arith;
  transitive = λ p q r h k. ground arith;
}

abbrev underlying : Pubkey
underlying = 1 ∷ []

abbrev wrapper : Pubkey
wrapper = 2 ∷ []

abbrev wv : WrapperVault
wv = record vault { underlying_mint = underlying; wrapper_mint = wrapper }

abbrev klend : Source
klend = klend_source (record { state = reserve; current_slot = 100; unix_timestamp = pos 1_000 })

abbrev token : Pubkey → TokenInfo
token key = record {
  pubkey = key;
  decimals = pos 6;
  is_token_2022 = false;
  transfer_fee = none;
  maximum_fee = none;
}

abbrev venue : OverpassVenue ℕ
venue = record {
  wrapper_vault_pda = 3 ∷ [];
  wrapper_vault = some wv;
  global_config = some config;
  token_in = token underlying;
  token_out = token wrapper;
  source = some klend;
  parts_deposit = (1_000, 2 ^ 40) ∷ (100_000, 2 ^ 39) ∷ [];
  parts_withdraw = [];
}

abbrev request : QuoteRequest
request = record {
  input_mint = underlying;
  output_mint = wrapper;
  amount = 10_000;
  swap_type = exact_in;
}

calm_klend :
    (dir : Direction) (x : ℕ)
    → IsU64 x
    → source_quote ⦃u = native_uint⦄ ⦃f = native_fixed⦄ ⦃g = native_signed⦄ klend wv config dir x
      ≢ panic
unfolding source_quote source_deposit source_withdraw
calm_klend deposit x wide =
    (quote_deposit-IsKlendDeposit ⦃u = native_uint⦄ ⦃f = native_fixed⦄ native_uint-IsUint
      native_fixed-IsFixed reserve 100 (pos 1_000) wv config accrued (1_499_000 * 2 ^ 60) x
      reserve_accrues reserve_total (omega arith) (omega arith) (omega arith)
      (record { held_fits = omega arith; supply_fits = omega arith }) wide).no_panic
calm_klend withdraw x wide =
    (quote_withdraw-IsKlendWithdrawal ⦃u = native_uint⦄ ⦃f = native_fixed⦄ native_uint-IsUint
      native_fixed-IsFixed reserve 100 (pos 1_000) wv accrued (1_499_000 * 2 ^ 60) x reserve_accrues
      reserve-IsSolvent (omega arith) (omega arith)
      (record { held_fits = omega arith; supply_fits = omega arith })).no_panic

every_amount_works :
    (x : ℕ)
    → IsU64 x
    → IsCalm ⦃u = native_uint⦄ ⦃f = native_fixed⦄ ⦃g = native_signed⦄ ⦃d = forty_bits⦄ venue x
every_amount_works x wide w gc s dir hw hg hs h = calm_klend dir x wide (same ∙ h)
  where
    same :
        source_quote ⦃u = native_uint⦄ ⦃f = native_fixed⦄ ⦃g = native_signed⦄ klend wv config dir x
        ≡ source_quote ⦃u = native_uint⦄ ⦃f = native_fixed⦄ ⦃g = native_signed⦄ s w gc dir x
    same = cc

ready : initialized venue ≡ true
unfolding initialized is_some is_lulo
ready = refl

to_wrapper : detect wv underlying wrapper ≡ ok deposit
unfolding detect
to_wrapper = refl

quote-initialized_example :
    (r : QuoteResult ℕ) × (quote ⦃u = native_uint⦄ ⦃f = native_fixed⦄ ⦃g = native_signed⦄
        ⦃d = forty_bits⦄ venue request
      ≡ ok r)
    × IsAnswer ⦃u = native_uint⦄ ⦃f = native_fixed⦄ ⦃g = native_signed⦄ ⦃d = forty_bits⦄ venue
        request r
quote-initialized_example =
    quote-initialized ⦃u = native_uint⦄ ⦃f = native_fixed⦄ ⦃g = native_signed⦄ ⦃d = forty_bits⦄
      venue request wv deposit ready refl refl to_wrapper (every_amount_works 10_000 (omega arith))

directions_num-AreDirections_example :
    (dirs : List (ℕ × ℕ)) × (directions_num ⦃u = native_uint⦄ ⦃f = native_fixed⦄ ⦃g = native_signed⦄
        ⦃d = forty_bits⦄ venue
      ≡ ok dirs)
    × AreDirections ⦃u = native_uint⦄ ⦃f = native_fixed⦄ ⦃g = native_signed⦄ ⦃d = forty_bits⦄ venue
        dirs
directions_num-AreDirections_example =
    directions_num-AreDirections ⦃u = native_uint⦄ ⦃f = native_fixed⦄ ⦃g = native_signed⦄
      ⦃d = forty_bits⦄ venue every_amount_works

abbrev half : ℕ → Outcome ℕ
half x = ok (x / 2)

half_calm : (x : ℕ) → IsU64 x → half x ≢ panic
half_calm x wide h = absurd cc

-- The prices of a source that gives half: four edges, three parts.
price_runs :
    (price_parts ⦃d = forty_bits⦄ (some (10, 500_000)) half
      ≡ ok ((10, 2 ^ 39) ∷ (125_000, 2 ^ 39) ∷ (250_000, 2 ^ 39) ∷ []))
    × (price_at ⦃d = forty_bits⦄ ((1_000, 7) ∷ (100_000, 3) ∷ []) 100_000 ≡ 3)
    × (price_at ⦃d = forty_bits⦄ ((1_000, 7) ∷ (100_000, 3) ∷ []) 10 ≡ 7)
unfolding price_parts halve insert sort dedup to_option new_part parts_of raise_to raise later
    last_at or_first price_at ◌>>=◌
price_runs = (refl, refl, refl)

price_parts_falling_example :
    (parts : List (ℕ × ℕ)) × (price_parts ⦃d = forty_bits⦄ (some (10, 500_000)) half ≡ ok parts)
    × NeverRises ⦃d = forty_bits⦄ parts
price_parts_falling_example =
    price_parts_falling ⦃d = forty_bits⦄ forty_bits-IsOrder (some (10, 500_000)) half (omega arith)
      half_calm

refresh_parts-HasFallingPrices_example :
    (next : OverpassVenue ℕ) × (refresh_parts ⦃u = native_uint⦄ ⦃f = native_fixed⦄
        ⦃g = native_signed⦄ ⦃d = forty_bits⦄ venue
      ≡ ok next)
    × HasFallingPrices ⦃d = forty_bits⦄ next
refresh_parts-HasFallingPrices_example =
    refresh_parts-HasFallingPrices ⦃u = native_uint⦄ ⦃f = native_fixed⦄ ⦃g = native_signed⦄
      ⦃d = forty_bits⦄ forty_bits-IsOrder venue every_amount_works

-- A creation, one by another program, and one that lacks the account of its mint.
abbrev accounts : List Pubkey
accounts =
    (0 ∷ []) ∷ (1 ∷ []) ∷ (2 ∷ []) ∷ (3 ∷ []) ∷ (4 ∷ []) ∷ (5 ∷ []) ∷ (6 ∷ []) ∷ (7 ∷ []) ∷ []

abbrev instructions : List ParsedInstruction
instructions =
    record { program_id = overpass_program_id; accounts = accounts; data_bytes = create_klend }
    ∷ record { program_id = wrapper; accounts = accounts; data_bytes = create_klend }
    ∷ record { program_id = overpass_program_id; accounts = accounts; data_bytes = create_lulo }
    ∷ []

parse_pool_creations-run :
    parse_pool_creations instructions
    ≡ record { protocol = protocol_overpass; pool = 4 ∷ []; mints = (7 ∷ []) ∷ (3 ∷ []) ∷ [] } ∷ []
unfolding parse_pool_creations creation_of find_creation collect
parse_pool_creations-run = refl

parse_pool_creations-Parses_example : Parses instructions (parse_pool_creations instructions)
parse_pool_creations-Parses_example = parse_pool_creations-Parses instructions
