-- ===== src/Venue.antt =====
-- `src/your_venue/mod.rs`: the Overpass venue over the sources. `f64` is a parameter `F`.
mod Tests
pub mod Sources
pub mod Prices
pub mod Trades
pub mod Answers
pub mod Quotes
pub mod Directions
pub mod Refresh
pub mod Creations
use overpass_titan_venue.Base.{
  ℕ, zero, suc, ◌+◌, ◌^◌, ◌/◌, Bool, true, false, not, ◌&&◌, ◌||◌, List, [], ◌∷◌, ◌++◌, Option,
  none, some, Pubkey, Outcome, ok, err, panic, ◌>>=◌, ◌>>◌, ok_or, fail_if, ltb, leb, ◌==◌,
  if◌then◌else◌, bytes_eq, u64_max, get_elem?, length, take, static_str, not_initialized,
  unsupported_venue, exact_out_not_supported,
}
use overpass_titan_venue.Uint.{Uint}
use overpass_titan_venue.Klend.Fixed.{Fixed}
use overpass_titan_venue.Marginfi.Signed.{Signed}
use overpass_titan_venue.Common.State.{WrapperVault, GlobalConfig}
use overpass_titan_venue.Common.Direction.{Direction, deposit, withdraw, detect}
use overpass_titan_venue.Common.Programs.{default_pubkey}
use overpass_titan_venue.TradingVenue.{SwapType, exact_in, exact_out, QuoteRequest, QuoteResult}
use overpass_titan_venue.TradingVenue.Methods.{TokenInfo, bounds}
use overpass_titan_venue.Venue.Sources.{
  Source, klend_source, kvault_source, save_source, marginfi_source, lulo_source, source_deposit,
  source_withdraw,
}
use overpass_titan_venue.Venue.Prices.{Double, price_parts, price_at}

pub record OverpassVenue (F : Type 0) : Type 0 where
  pub wrapper_vault_pda : Pubkey
  pub wrapper_vault : Option WrapperVault
  pub global_config : Option GlobalConfig
  pub token_in : TokenInfo
  pub token_out : TokenInfo
  pub source : Option Source
  pub parts_deposit : List (ℕ × F)
  pub parts_withdraw : List (ℕ × F)

unfoldable pub is_some : {A : Type 0} → Option A → Bool
is_some none = false
is_some (some a) = true

unfoldable pub is_lulo : Option Source → Bool
is_lulo (some (lulo_source s)) = true
is_lulo (some (klend_source s)) = false
is_lulo (some (kvault_source s)) = false
is_lulo (some (save_source s)) = false
is_lulo (some (marginfi_source s)) = false
is_lulo none = false

unfoldable pub is_exact_out : SwapType → Bool
is_exact_out exact_in = false
is_exact_out exact_out = true

unfoldable pub initialized : {F : Type 0} → OverpassVenue F → Bool
unfolding is_some is_lulo
initialized venue =
    is_some venue.wrapper_vault
    && is_some venue.global_config
    && is_some venue.source
    && not (bytes_eq venue.token_in.pubkey default_pubkey)
    && not (is_lulo venue.source)

unfoldable pub parts_for : {F : Type 0} → OverpassVenue F → Direction → List (ℕ × F)
parts_for venue deposit = venue.parts_deposit
parts_for venue withdraw = venue.parts_withdraw

unfoldable pub source_quote :
    ⦃u : Uint⦄
    → ⦃f : Fixed⦄ → ⦃g : Signed⦄ → Source
    → WrapperVault
    → GlobalConfig
    → Direction
    → ℕ
    → Outcome ℕ
unfolding source_deposit source_withdraw
source_quote source wv gc deposit amount = source_deposit source wv gc amount
source_quote source wv gc withdraw amount = source_withdraw source wv amount

-- The result that a quote of nothing has, for want of liquidity.
unfoldable pub nothing : {F : Type 0} → QuoteRequest → F → QuoteResult F
nothing request price = record {
  input_mint = request.input_mint;
  output_mint = request.output_mint;
  amount = 0;
  expected_output = 0;
  not_enough_liquidity = true;
  price = price;
}

-- The match on the quote of the source: any error is a lack of liquidity.
unfoldable pub answer : {F : Type 0} → QuoteRequest → F → Outcome ℕ → Outcome (QuoteResult F)
unfolding nothing
answer request price (ok v) = ok (record {
  input_mint = request.input_mint;
  output_mint = request.output_mint;
  amount = request.amount;
  expected_output = v;
  not_enough_liquidity = false;
  price = price;
})
answer request price (err e) = ok (nothing request price)
answer request price panic = panic

unfoldable pub quote :
    {F : Type 0}
    → ⦃u : Uint⦄ → ⦃f : Fixed⦄ → ⦃g : Signed⦄ → ⦃d : Double F⦄ → OverpassVenue F
    → QuoteRequest
    → Outcome (QuoteResult F)
unfolding is_lulo is_exact_out parts_for source_quote price_at answer
quote venue request = do
  fail_if (is_lulo venue.source) (unsupported_venue (static_str "lulo"))
  fail_if (is_exact_out request.swap_type) exact_out_not_supported
  wv ← ok_or venue.wrapper_vault (not_initialized (static_str "wrapper_vault"))
  gc ← ok_or venue.global_config (not_initialized (static_str "global_config"))
  source ← ok_or venue.source (not_initialized (static_str "source"))
  dir ← detect wv request.input_mint request.output_mint
  let price = price_at (parts_for venue dir) request.amount
  if leb (u64_max / 2) request.amount
      then ok (nothing request price)
      else answer request price (source_quote source wv gc dir request.amount)

unfoldable pub token_info : {F : Type 0} → OverpassVenue F → List TokenInfo
token_info venue = venue.token_in ∷ venue.token_out ∷ []

unfoldable pub venue_bounds :
    {F : Type 0}
    → ⦃u : Uint⦄ → ⦃f : Fixed⦄ → ⦃g : Signed⦄ → ⦃d : Double F⦄ → OverpassVenue F
    → ℕ
    → ℕ
    → Outcome (ℕ × ℕ)
unfolding bounds quote token_info
venue_bounds venue i j = bounds (token_info venue) (quote venue) i j

-- `is_ok` and `ok` of the bounds.
unfoldable pub range_of : Outcome (ℕ × ℕ) → Outcome (Option (ℕ × ℕ))
range_of (ok range) = ok (some range)
range_of (err e) = ok none
range_of panic = panic

unfoldable pub supply_of : Option WrapperVault → ℕ
supply_of none = 0
supply_of (some wv) = wv.wrapper_supply

unfoldable pub directions_num :
    {F : Type 0}
    → ⦃u : Uint⦄ → ⦃f : Fixed⦄ → ⦃g : Signed⦄ → ⦃d : Double F⦄ → OverpassVenue F
    → Outcome (List (ℕ × ℕ))
unfolding venue_bounds range_of is_some supply_of
directions_num venue = do
  deposits ← range_of (venue_bounds venue 0 1)
  withdrawals ← range_of (venue_bounds venue 1 0)
  if ltb 0 (supply_of venue.wrapper_vault) && not (is_some withdrawals)
      then ok []
      else ok (
          (if is_some deposits then (0, 1) ∷ [] else [])
          ++ (if is_some withdrawals then (1, 0) ∷ [] else []))

-- The match on the state that the prices are computed from.
unfoldable pub price_both :
    {F : Type 0}
    → ⦃u : Uint⦄ → ⦃f : Fixed⦄ → ⦃g : Signed⦄ → ⦃d : Double F⦄ → Option Source
    → Option WrapperVault
    → Option GlobalConfig
    → Option (ℕ × ℕ)
    → Option (ℕ × ℕ)
    → Outcome (List (ℕ × F) × List (ℕ × F))
unfolding source_quote price_parts
price_both (some source) (some wv) (some gc) bd bw = do
  pd ← price_parts bd (source_quote source wv gc deposit)
  pw ← price_parts bw (source_quote source wv gc withdraw)
  ok (pd, pw)
price_both (some source) (some wv) none bd bw = ok ([], [])
price_both (some source) none gc bd bw = ok ([], [])
price_both none wv gc bd bw = ok ([], [])

-- The end of `update_state`: the prices from the new state.
unfoldable pub refresh_parts :
    {F : Type 0}
    → ⦃u : Uint⦄ → ⦃f : Fixed⦄ → ⦃g : Signed⦄ → ⦃d : Double F⦄ → OverpassVenue F
    → Outcome (OverpassVenue F)
unfolding venue_bounds range_of price_both
refresh_parts venue = do
  bd ← range_of (venue_bounds venue 0 1)
  bw ← range_of (venue_bounds venue 1 0)
  parts ← price_both venue.source venue.wrapper_vault venue.global_config bd bw
  ok (record venue { parts_deposit = parts.0; parts_withdraw = parts.1 })
