-- ===== src/Venue/Quotes.antt =====
-- What the quotes of the Overpass venue answer, and why they fail.
use overpass_titan_venue.Base.{
  ℕ, ◌/◌, ◌<◌, ◌≡◌, ◌≢◌, refl, true, Option, none, some, Outcome, ok, err, panic, TradingVenueError,
  leb, u64_max, arith, if◌then◌else◌,
}
use overpass_titan_venue.Base.Safe.{
  Safe, Safe-ok, Safe-if, Safe-fail_when, Safe-ok_or_when->>=, Safe->>=, Safe-weaken_error,
  Safe-weaken, Safe-returns,
}
use overpass_titan_venue.Uint.{Uint}
use overpass_titan_venue.Klend.Fixed.{Fixed}
use overpass_titan_venue.Marginfi.Signed.{Signed}
use overpass_titan_venue.Common.State.{WrapperVault, GlobalConfig}
use overpass_titan_venue.Common.Direction.{Direction, detect}
use overpass_titan_venue.TradingVenue.{exact_in, QuoteRequest, QuoteResult}
use mathlib.Core.Path.{subst}
use overpass_titan_venue.Venue.Sources.{Source}
use overpass_titan_venue.Venue.Trades.{IsTrade, buys, sells, NoTrade, detect-Safe}
use overpass_titan_venue.Venue.Prices.{Double, price_at}
use overpass_titan_venue.Venue.Prices.Lookup.{price_at-IsPrice}
use overpass_titan_venue.Venue.{
  OverpassVenue, is_lulo, is_exact_out, parts_for, source_quote, nothing, answer, quote,
  initialized, is_some,
}
use overpass_titan_venue.Venue.Answers.{
  Offers, offered, too_large, refused, source_quote-quoted_by, parts_for-priced_by, exact_in_of,
  exact_out_of, IsLulo-lulo, is_lulo-IsLulo, told, IsAnswer, QuoteFailure, for_lulo, for_exact_out,
  for_vault, for_config, for_source, for_mints,
}

none_missing : {A : Type 0} (o : Option A) → is_some o ≡ true → o ≢ none
unfolding is_some
none_missing none h e = absurd cc
none_missing (some a) h e = absurd cc

module _ {F : Type 0} ⦃u : Uint⦄ ⦃f : Fixed⦄ ⦃g : Signed⦄ ⦃d : Double F⦄ where
  -- The source of the venue does not panic on an amount.
  abbrev pub IsCalm : OverpassVenue F → ℕ → Type 0
  IsCalm venue amount =
      (wv : WrapperVault) (gc : GlobalConfig) (source : Source) (dir : Direction)
      → venue.wrapper_vault ≡ some wv
      → venue.global_config ≡ some gc
      → venue.source ≡ some source
      → source_quote source wv gc dir amount ≢ panic

  told-Safe :
      {E : TradingVenueError → Type 0} (source : Source) (wv : WrapperVault) (gc : GlobalConfig)
      (dir : Direction) (request : QuoteRequest) (price : F)
      → source_quote source wv gc dir request.amount ≢ panic
      → Safe
          (λ r.
            (offer : Option ℕ) × Offers request.amount
              (source_quote source wv gc dir request.amount)
              offer
            × (r ≡ told request price offer))
          E
          (if leb (u64_max / 2) request.amount
            then ok (nothing request price)
            else answer request price (source_quote source wv gc dir request.amount))
  unfolding nothing answer
  told-Safe {E} source wv gc dir request price calm =
      Safe-if (leb (u64_max / 2) request.amount) _ _
        (λ h. Safe-ok _ (none, too_large (ground arith), refl))
        λ h. go (source_quote source wv gc dir request.amount) refl calm (ground arith)
    where
      go :
          (o : Outcome ℕ)
          → source_quote source wv gc dir request.amount ≡ o
          → o ≢ panic
          → request.amount < u64_max / 2
          → Safe
              (λ r.
                (offer : Option ℕ) × Offers request.amount
                  (source_quote source wv gc dir request.amount)
                  offer
                × (r ≡ told request price offer))
              E
              (answer request price o)
      go (ok v) e c lt = Safe-ok _ (some v, offered v lt e, refl)
      go (err x) e c lt = Safe-ok _ (none, refused x e, refl)
      go panic e c lt = absurd (c refl)

  pub quote-IsAnswer :
      (venue : OverpassVenue F) (request : QuoteRequest)
      → IsCalm venue request.amount
      → Safe (IsAnswer venue request) (QuoteFailure venue request) (quote venue request)
  unfolding quote
  quote-IsAnswer venue request calm =
      Safe-fail_when (is_lulo venue.source) _ _ (λ h. for_lulo (is_lulo-IsLulo venue.source h) refl)
        λ lulo.
          Safe-fail_when (is_exact_out request.swap_type) _ _
            (λ h. for_exact_out (exact_out_of request.swap_type h) refl)
            λ inward.
              Safe-ok_or_when->>= _ _ _ (λ h. for_vault h refl)
                λ wv hw.
                  Safe-ok_or_when->>= _ _ _ (λ h. for_config h refl)
                    λ gc hg.
                      Safe-ok_or_when->>= _ _ _ (λ h. for_source h refl)
                        λ source hs.
                          Safe->>= _ _
                            (Safe-weaken_error _ (detect-Safe wv request) λ e h. for_mints wv hw h)
                            λ dir _ trade.
                              Safe-weaken _
                                (told-Safe source wv gc dir request
                                  (price_at (parts_for venue dir) request.amount)
                                  (calm wv gc source dir hw hg hs))
                                λ r _ fr. record {
                                  wv = wv;
                                  gc = gc;
                                  source = source;
                                  dir = dir;
                                  has_vault = hw;
                                  has_config = hg;
                                  has_source = hs;
                                  not_lulo = λ h. let x = IsLulo-lulo venue.source h in absurd cc;
                                  is_exact_in = exact_in_of request.swap_type inward;
                                  is_trade = trade;
                                  offer = fr.0;
                                  is_offer =
                                      rw (← source_quote-quoted_by source wv gc dir request.amount)
                                        fr.1;
                                  price = price_at (parts_for venue dir) request.amount;
                                  is_price =
                                      rw (← parts_for-priced_by venue dir)
                                        (price_at-IsPrice (parts_for venue dir) request.amount);
                                  is_told = fr.2;
                                }

  -- A venue that is initialized answers every exact-in request for which its mints are a direction
  -- and its source does not panic: it returns, without an error.
  pub quote-initialized :
      (venue : OverpassVenue F) (request : QuoteRequest) (wv : WrapperVault) (dir : Direction)
      → initialized venue ≡ true
      → request.swap_type ≡ exact_in
      → venue.wrapper_vault ≡ some wv
      → detect wv request.input_mint request.output_mint ≡ ok dir
      → IsCalm venue request.amount
      → (r : QuoteResult F) × (quote venue request ≡ ok r) × IsAnswer venue request r
  unfolding initialized
  quote-initialized venue request wv dir ready exact hw hd calm =
      Safe-returns (quote venue request)
        (Safe-weaken_error _ (quote-IsAnswer venue request calm) no_failure)
    where
      no_failure : (e : TradingVenueError) → QuoteFailure venue request e → ⊥
      no_failure e (for_lulo h _) = let x = IsLulo-lulo venue.source h in absurd (ground arith)
      no_failure e (for_exact_out h _) = absurd cc
      no_failure e (for_vault h _) = none_missing venue.wrapper_vault (ground arith) h
      no_failure e (for_config h _) = none_missing venue.global_config (ground arith) h
      no_failure e (for_source h _) = none_missing venue.source (ground arith) h
      no_failure e (for_mints wv' h x) =
          let same : wv' ≡ wv = cc in
          no_trade dir (subst (λ w. NoTrade w request e) same x)
            ((detect-Safe wv request).result dir hd)
        where
          no_trade : (dir : Direction) → NoTrade wv request e → IsTrade wv request dir → ⊥
          no_trade _ x (buys b) = x.no_purchase b
          no_trade _ x (sells _ s) = x.no_sale s
