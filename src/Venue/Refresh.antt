-- ===== src/Venue/Refresh.antt =====
-- The prices after an update of the Overpass venue.
use overpass_titan_venue.Base.{
  ℕ, ◌≡◌, ◌≢◌, refl, [], Option, none, some, ok, panic, IsU64, ok_or, ◌>>=◌,
}
use overpass_titan_venue.Base.Safe.{Safe-ok, Safe->>=, Safe-returns, Returns}
use overpass_titan_venue.Uint.{Uint}
use overpass_titan_venue.Klend.Fixed.{Fixed}
use overpass_titan_venue.Marginfi.Signed.{Signed}
use overpass_titan_venue.Common.State.{WrapperVault, GlobalConfig}
use overpass_titan_venue.Common.Direction.{Direction, deposit, withdraw}
use overpass_titan_venue.TradingVenue.Methods.{bounds, get_token}
use overpass_titan_venue.Venue.Sources.{Source}
use overpass_titan_venue.Venue.Prices.{Double}
use overpass_titan_venue.Venue.Prices.Order.{IsOrder, price_at-falls}
use overpass_titan_venue.Venue.Prices.Total.{IsWideRange, NeverRises, price_parts-Returns}
use overpass_titan_venue.Venue.Quotes.{IsCalm}
use overpass_titan_venue.Venue.Directions.{range-Returns}
use overpass_titan_venue.Venue.{
  OverpassVenue, source_quote, venue_bounds, price_both, refresh_parts,
}

-- The prices of both directions never rise with the amount.
pub record HasFallingPrices {F : Type 0} ⦃d : Double F⦄ (venue : OverpassVenue F) : Type 0 where
  pub deposits_fall : NeverRises venue.parts_deposit
  pub withdrawals_fall : NeverRises venue.parts_withdraw

module _ {F : Type 0} ⦃u : Uint⦄ ⦃f : Fixed⦄ ⦃g : Signed⦄ ⦃d : Double F⦄ (order : IsOrder d) where
  none_rise : NeverRises {F = F} []
  none_rise a b le = price_at-falls order [] a b tt le

  price_both-Returns :
      (source : Option Source) (wv : Option WrapperVault) (gc : Option GlobalConfig)
      (bd bw : Option (ℕ × ℕ))
      → IsWideRange bd
      → IsWideRange bw
      → ((s : Source) (w : WrapperVault) (c : GlobalConfig) (dir : Direction) (x : ℕ)
          → source ≡ some s
          → wv ≡ some w
          → gc ≡ some c
          → IsU64 x
          → source_quote s w c dir x ≢ panic)
      → Returns
          (λ p. NeverRises {F = F} p.0 × NeverRises {F = F} p.1)
          (price_both source wv gc bd bw)
  unfolding price_both
  price_both-Returns (some s) (some w) (some c) bd bw hd hw calm =
      Safe->>= _ _
        (price_parts-Returns order bd (source_quote s w c deposit) hd
          λ x wide. calm s w c deposit x refl refl refl wide)
        λ pd _ fd.
          Safe->>= _ _
            (price_parts-Returns order bw (source_quote s w c withdraw) hw
              λ x wide. calm s w c withdraw x refl refl refl wide)
            λ pw _ fw. Safe-ok (pd, pw) (fd, fw)
  price_both-Returns (some s) (some w) none bd bw hd hw calm = Safe-ok _ (none_rise, none_rise)
  price_both-Returns (some s) none gc bd bw hd hw calm = Safe-ok _ (none_rise, none_rise)
  price_both-Returns none wv gc bd bw hd hw calm = Safe-ok _ (none_rise, none_rise)

  -- Where the source of the venue does not panic on amounts of 64 bits and `<` on `f64` is an order
  -- of numbers, the end of `update_state` returns, and the prices of the quotes in both directions
  -- never rise with the amount after it.
  pub refresh_parts-HasFallingPrices :
      (venue : OverpassVenue F)
      → ((x : ℕ) → IsU64 x → IsCalm venue x)
      → (next : OverpassVenue F) × (refresh_parts venue ≡ ok next) × HasFallingPrices next
  unfolding refresh_parts venue_bounds bounds get_token ok_or ◌>>=◌
  refresh_parts-HasFallingPrices venue calm = Safe-returns (refresh_parts venue) (
      Safe->>= _ _ (range-Returns venue venue.token_in venue.token_out calm) λ bd _ hd.
        Safe->>= _ _ (range-Returns venue venue.token_out venue.token_in calm) λ bw _ hw.
          Safe->>= _ _
            (price_both-Returns venue.source venue.wrapper_vault venue.global_config bd bw hd.1 hw.1
              λ s w c dir x hs hv hc wide. calm x wide w c s dir hv hc hs)
            λ parts _ fp. Safe-ok _ (record { deposits_fall = fp.0; withdrawals_fall = fp.1 }))
