-- ===== src/Venue/Directions.antt =====
-- The directions that the Overpass venue lists.
use overpass_titan_venue.Base.{
  ℕ, ◌<◌, ◌≡◌, inl, inr, refl, sym, ok_or, ◌>>=◌, Bool, true, false, List, [], ◌∷◌, ◌++◌, Option,
  none, some, Outcome, ok, ltb, ◌&&◌, not, arith, if◌then◌else◌, IsU64,
}
use mathlib.Core.Path.{subst}
use overpass_titan_venue.Base.Safe.{Safe-ok, Safe-if, Safe->>=, Safe-returns, Returns}
use overpass_titan_venue.Uint.{Uint}
use overpass_titan_venue.Klend.Fixed.{Fixed}
use overpass_titan_venue.Marginfi.Signed.{Signed}
use overpass_titan_venue.TradingVenue.{QuoteRequest, QuoteResult, exact_in}
use overpass_titan_venue.TradingVenue.Methods.{TokenInfo, bounds, get_token}
use overpass_titan_venue.Bounds.{find_boundaries}
use overpass_titan_venue.Bounds.Probe.{NeverPanics}
use overpass_titan_venue.Bounds.Search.{IsRange, find_boundaries_lem}
use overpass_titan_venue.Venue.Prices.{Double}
use overpass_titan_venue.Venue.Prices.Total.{IsWideRange}
use overpass_titan_venue.Venue.Quotes.{IsCalm, quote-IsAnswer}
use overpass_titan_venue.Venue.{
  OverpassVenue, quote, venue_bounds, range_of, supply_of, is_some, directions_num,
}

-- The request for an amount between two tokens, as the search makes it.
abbrev pub request_of : TokenInfo → TokenInfo → ℕ → QuoteRequest
request_of input output x = record {
  input_mint = input.pubkey;
  output_mint = output.pubkey;
  amount = x;
  swap_type = exact_in;
}

module _ {F : Type 0} ⦃u : Uint⦄ ⦃f : Fixed⦄ ⦃g : Signed⦄ ⦃d : Double F⦄ where
  abbrev pub quote_of : OverpassVenue F → TokenInfo → TokenInfo → ℕ → Outcome (QuoteResult F)
  quote_of venue input output x = quote venue (request_of input output x)

  -- The search found a range with valid quotes at both ends.
  abbrev pub IsTradable : OverpassVenue F → TokenInfo → TokenInfo → Type 0
  IsTradable venue input output =
      (lo hi : ℕ) × (find_boundaries (quote_of venue input output) ≡ ok (lo, hi))
      × IsRange (quote_of venue input output) lo hi

  -- Deposits are listed where they are tradable and withdrawals are, or nothing has been minted.
  pub record AreDirections (venue : OverpassVenue F) (dirs : List (ℕ × ℕ)) : Type 0 where
    pub deposits : Bool
    pub withdrawals : Bool
    pub are_listed :
        dirs ≡ (if deposits then (0, 1) ∷ [] else []) ++ (if withdrawals then (1, 0) ∷ [] else [])
    pub deposits_tradable : deposits ≡ true → IsTradable venue venue.token_in venue.token_out
    pub withdrawals_tradable : withdrawals ≡ true → IsTradable venue venue.token_out venue.token_in
    pub exit_open : 0 < supply_of venue.wrapper_vault → deposits ≡ true → withdrawals ≡ true

  never_panics :
      (venue : OverpassVenue F) (i o : TokenInfo)
      → ((x : ℕ) → IsU64 x → IsCalm venue x)
      → NeverPanics (quote_of venue i o)
  never_panics venue i o calm x wide =
      (quote-IsAnswer venue (request_of i o x) (calm x wide)).no_panic

  -- The outcome of one search.
  abbrev pub IsFound : OverpassVenue F → TokenInfo → TokenInfo → Option (ℕ × ℕ) → Type 0
  IsFound venue i o r = (is_some r ≡ true → IsTradable venue i o) × IsWideRange r

  pub range-Returns :
      (venue : OverpassVenue F) (i o : TokenInfo)
      → ((x : ℕ) → IsU64 x → IsCalm venue x)
      → Returns (IsFound venue i o) (range_of (find_boundaries (quote_of venue i o)))
  unfolding range_of is_some
  range-Returns venue i o calm =
      elim (find_boundaries_lem (quote_of venue i o) (never_panics venue i o calm)) [
        | inl (eq, _) ↦
            subst (λ x. Returns (IsFound venue i o) (range_of x)) (sym eq)
              (Safe-ok none ((λ h. absurd cc), tt))
        | inr (lo, hi, eq, range, _, _, _) ↦
            subst (λ x. Returns (IsFound venue i o) (range_of x)) (sym eq)
              (Safe-ok (some (lo, hi)) ((λ _. (lo, hi, eq, range)), range.fits))
      ]

  -- Where the source of the venue does not panic on amounts of 64 bits, `directions_num` returns. A
  -- direction that it lists has a range with valid quotes at both ends, and while wrapper shares
  -- are held, it lists deposits only together with withdrawals.
  pub directions_num-AreDirections :
      (venue : OverpassVenue F)
      → ((x : ℕ) → IsU64 x → IsCalm venue x)
      → (dirs : List (ℕ × ℕ)) × (directions_num venue ≡ ok dirs) × AreDirections venue dirs
  unfolding directions_num venue_bounds bounds get_token ok_or ◌>>=◌
  directions_num-AreDirections venue calm = Safe-returns (directions_num venue) (
      Safe->>= _ _ (range-Returns venue venue.token_in venue.token_out calm) λ din _ hd.
        Safe->>= _ _ (range-Returns venue venue.token_out venue.token_in calm) λ dout _ hw.
          Safe-if (ltb 0 (supply_of venue.wrapper_vault) && not (is_some dout)) _ _
            (λ h. Safe-ok [] (record {
              deposits = false;
              withdrawals = false;
              are_listed = refl;
              deposits_tradable = λ e. absurd cc;
              withdrawals_tradable = λ e. absurd cc;
              exit_open = λ p e. absurd cc;
            }))
            λ h. Safe-ok _ (record {
              deposits = is_some din;
              withdrawals = is_some dout;
              are_listed = refl;
              deposits_tradable = hd.0;
              withdrawals_tradable = hw.0;
              exit_open = λ p e. ground arith;
            }))
