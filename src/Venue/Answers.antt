-- ===== src/Venue/Answers.antt =====
-- What a quote of the Overpass venue may answer, described by the source, the mints and the prices.
use overpass_titan_venue.Base.{
  ℕ, ◌/◌, ◌≤◌, ◌<◌, ◌≡◌, refl, true, false, List, Option, none, some, Outcome, ok, err,
  TradingVenueError, u64_max, unsupported_venue, static_str, exact_out_not_supported,
  not_initialized,
}
use overpass_titan_venue.Uint.{Uint}
use overpass_titan_venue.Klend.Fixed.{Fixed}
use overpass_titan_venue.Marginfi.Signed.{Signed}
use overpass_titan_venue.Common.State.{WrapperVault, GlobalConfig}
use overpass_titan_venue.Common.Direction.{Direction, deposit, withdraw}
use overpass_titan_venue.TradingVenue.{SwapType, exact_in, exact_out, QuoteRequest, QuoteResult}
use overpass_titan_venue.Venue.Sources.{
  Source, Lulo, lulo_source, klend_source, kvault_source, save_source, marginfi_source,
  source_deposit, source_withdraw,
}
use overpass_titan_venue.Venue.Trades.{IsTrade, NoTrade}
use overpass_titan_venue.Venue.Prices.{Double}
use overpass_titan_venue.Venue.Prices.Lookup.{IsPrice}
use overpass_titan_venue.Venue.{OverpassVenue, is_lulo, is_exact_out, parts_for, source_quote}

-- What is offered for an amount that the source quotes as `sourced`: that quote, without a limit
-- of its own but half of the range of an amount.
pub data Offers (amount : ℕ) (sourced : Outcome ℕ) : Option ℕ → Type 0 where
  offered : (v : ℕ) → amount < u64_max / 2 → sourced ≡ ok v → Offers amount sourced (some v)
  too_large : u64_max / 2 ≤ amount → Offers amount sourced none
  refused : (e : TradingVenueError) → sourced ≡ err e → Offers amount sourced none

module _ ⦃u : Uint⦄ ⦃f : Fixed⦄ ⦃g : Signed⦄ where
  -- A deposit is quoted by the deposit of the source, a withdrawal by its withdrawal.
  abbrev pub quoted_by : Source → WrapperVault → GlobalConfig → Direction → ℕ → Outcome ℕ
  quoted_by source wv gc deposit amount = source_deposit source wv gc amount
  quoted_by source wv gc withdraw amount = source_withdraw source wv amount

  pub source_quote-quoted_by :
      (source : Source) (wv : WrapperVault) (gc : GlobalConfig) (dir : Direction) (amount : ℕ)
      → source_quote source wv gc dir amount ≡ quoted_by source wv gc dir amount
  unfolding source_quote
  source_quote-quoted_by source wv gc deposit amount = refl
  source_quote-quoted_by source wv gc withdraw amount = refl

-- The prices of a deposit are those of deposits, and those of a withdrawal those of withdrawals.
abbrev pub priced_by : {F : Type 0} → OverpassVenue F → Direction → List (ℕ × F)
priced_by venue deposit = venue.parts_deposit
priced_by venue withdraw = venue.parts_withdraw

pub parts_for-priced_by :
    {F : Type 0} (venue : OverpassVenue F) (dir : Direction)
    → parts_for venue dir ≡ priced_by venue dir
unfolding parts_for
parts_for-priced_by venue deposit = refl
parts_for-priced_by venue withdraw = refl

pub exact_in_of : (t : SwapType) → is_exact_out t ≡ false → t ≡ exact_in
unfolding is_exact_out
exact_in_of exact_in h = refl
exact_in_of exact_out h = absurd cc

-- The source is that of Lulo.
pub data IsLulo : Option Source → Type 0 where
  of_lulo : (s : Lulo) → IsLulo (some (lulo_source s))

pub IsLulo-lulo : (o : Option Source) → IsLulo o → is_lulo o ≡ true
unfolding is_lulo
IsLulo-lulo _ (of_lulo s) = refl

pub is_lulo-IsLulo : (o : Option Source) → is_lulo o ≡ true → IsLulo o
unfolding is_lulo
is_lulo-IsLulo (some (lulo_source s)) h = of_lulo s
is_lulo-IsLulo (some (klend_source s)) h = absurd cc
is_lulo-IsLulo (some (kvault_source s)) h = absurd cc
is_lulo-IsLulo (some (save_source s)) h = absurd cc
is_lulo-IsLulo (some (marginfi_source s)) h = absurd cc
is_lulo-IsLulo none h = absurd cc

pub exact_out_of : (t : SwapType) → is_exact_out t ≡ true → t ≡ exact_out
unfolding is_exact_out
exact_out_of exact_in h = absurd cc
exact_out_of exact_out h = refl

module _ {F : Type 0} ⦃u : Uint⦄ ⦃f : Fixed⦄ ⦃g : Signed⦄ ⦃d : Double F⦄ where
  -- How an offer is told.
  abbrev pub told : QuoteRequest → F → Option ℕ → QuoteResult F
  told request price none = record {
    input_mint = request.input_mint;
    output_mint = request.output_mint;
    amount = 0;
    expected_output = 0;
    not_enough_liquidity = true;
    price = price;
  }
  told request price (some v) = record {
    input_mint = request.input_mint;
    output_mint = request.output_mint;
    amount = request.amount;
    expected_output = v;
    not_enough_liquidity = false;
    price = price;
  }

  -- An answer tells what the source offers in the direction of the mints, at the price of the parts.
  pub record IsAnswer (venue : OverpassVenue F) (request : QuoteRequest) (r : QuoteResult F)
      : Type 0 where
    pub wv : WrapperVault
    pub gc : GlobalConfig
    pub source : Source
    pub dir : Direction
    pub not_lulo : ¬ IsLulo venue.source
    pub is_exact_in : request.swap_type ≡ exact_in
    pub has_vault : venue.wrapper_vault ≡ some wv
    pub has_config : venue.global_config ≡ some gc
    pub has_source : venue.source ≡ some source
    pub is_trade : IsTrade wv request dir
    pub offer : Option ℕ
    pub is_offer : Offers request.amount (quoted_by source wv gc dir request.amount) offer
    pub price : F
    pub is_price : IsPrice request.amount (priced_by venue dir) price
    pub is_told : r ≡ told request price offer

  -- Why a quote fails: for the kind of the source or of the request, for a part of the state that is
  -- missing, or for the mints.
  pub data QuoteFailure (venue : OverpassVenue F) (request : QuoteRequest) (e : TradingVenueError)
      : Type 0 where
    for_lulo :
        IsLulo venue.source
        → e ≡ unsupported_venue (static_str "lulo")
        → QuoteFailure venue request e
    for_exact_out :
        request.swap_type ≡ exact_out → e ≡ exact_out_not_supported → QuoteFailure venue request e
    for_vault :
        venue.wrapper_vault ≡ none
        → e ≡ not_initialized (static_str "wrapper_vault")
        → QuoteFailure venue request e
    for_config :
        venue.global_config ≡ none
        → e ≡ not_initialized (static_str "global_config")
        → QuoteFailure venue request e
    for_source :
        venue.source ≡ none
        → e ≡ not_initialized (static_str "source")
        → QuoteFailure venue request e
    for_mints :
        (wv : WrapperVault)
        → venue.wrapper_vault ≡ some wv
        → NoTrade wv request e
        → QuoteFailure venue request e
