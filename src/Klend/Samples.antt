-- ===== src/Klend/Samples.antt =====
-- A reserve and a vault that the tests of `src/your_venue/klend` and `src/your_venue/kvault` run
-- on, and the accrual of the reserve.
use overpass_titan_venue.Base.{◌*◌, ◌^◌, ◌≡◌, refl, [], ◌∷◌, ok, false, arith, ◌>>=◌, or_panic}
use overpass_titan_venue.Common.State.{WrapperVault, GlobalConfig}
use overpass_titan_venue.Klend.Fixed.Native.{native_fixed}
use overpass_titan_venue.Int.{pos, negsuc}
use overpass_titan_venue.Klend.Caps.{WithdrawalCaps}
use overpass_titan_venue.Klend.Math.Quotes.{IsSolvent}
use overpass_titan_venue.Klend.State.{KlendState}
use overpass_titan_venue.Klend.Accrual.{
  AccruedKlend, accrue_interest, total_supply_fraction, total_supply_core, since, is_zero,
}

abbrev pub cap : WithdrawalCaps
cap = record {
  config_capacity = pos 500_000;
  current_total = negsuc 9_999;
  last_interval_start_timestamp = 900;
  config_interval_length_seconds = 86_400;
}

abbrev pub reserve : KlendState
reserve = record {
  version = 1;
  last_update_slot = 100;
  last_update_timestamp = 1_000;
  lending_market = [];
  mint_pubkey = [];
  supply_vault = [];
  total_available_amount = 1_000_000;
  borrowed_amount_sf = 500_000 * 2 ^ 60;
  market_price_last_updated_ts = 0;
  mint_decimals = 6;
  cumulative_borrow_rate_bsf = 0 ∷ 0 ∷ 0 ∷ 0 ∷ 0 ∷ 0 ∷ [];
  accumulated_protocol_fees_sf = 1_000 * 2 ^ 60;
  accumulated_referrer_fees_sf = 0;
  pending_referrer_fees_sf = 0;
  absolute_referral_rate_sf = 0;
  liquidity_token_program = [];
  collateral_mint_pubkey = [];
  collateral_mint_total_supply = 1_200_000;
  status = 0;
  block_ctoken_usage = false;
  emergency_mode = false;
  host_fixed_interest_rate_bps = 10;
  protocol_take_rate_pct = 10;
  interest_rate_basis = 0;
  borrow_rate_curve =
      0 ∷ 0 ∷ 0 ∷ 0 ∷ 0 ∷ 0 ∷ 0 ∷ 0 ∷ 0 ∷ 0 ∷ 0 ∷ 0 ∷ 0 ∷ 0 ∷ 0 ∷ 0 ∷ 0 ∷ 0 ∷ 0 ∷ 0 ∷ 0 ∷ 0 ∷ 0 ∷ 0
      ∷ 0 ∷ 0 ∷ 0 ∷ 0 ∷ 0 ∷ 0 ∷ 0 ∷ 0 ∷ 0 ∷ 0 ∷ 0 ∷ 0 ∷ 0 ∷ 0 ∷ 0 ∷ 0 ∷ 0 ∷ 0 ∷ 0 ∷ 0 ∷ 0 ∷ 0 ∷ 0
      ∷ 0 ∷ 0 ∷ 0 ∷ 0 ∷ 0 ∷ 0 ∷ 0 ∷ 0 ∷ 0 ∷ 0 ∷ 0 ∷ 0 ∷ 0 ∷ 0 ∷ 0 ∷ 0 ∷ 0 ∷ 0 ∷ 0 ∷ 0 ∷ 0 ∷ 0 ∷ 0
      ∷ 0 ∷ 0 ∷ 0 ∷ 0 ∷ 0 ∷ 0 ∷ 0 ∷ 0 ∷ 0 ∷ 0 ∷ 0 ∷ 0 ∷ 0 ∷ 0 ∷ 0 ∷ 0 ∷ 0 ∷ 0 ∷ [];
  deposit_limit = 10_000_000;
  max_age_price_seconds = 0;
  deposit_withdrawal_cap = cap;
  debt_withdrawal_cap = cap;
  queued_collateral_amount = 1_000;
  scope_price_feed = [];
  switchboard_price_aggregator = [];
  switchboard_twap_aggregator = [];
  pyth_price = [];
}

abbrev pub vault : WrapperVault
vault = record {
  version = 1;
  bump = 0;
  vault_authority_bump = 0;
  protocol = 2;
  creation_timestamp = 0;
  creator = [];
  wrapper_mint = [];
  underlying_mint = [];
  source_pool = [];
  source_position_pda = [];
  creator_deposit_fee_bps = 30;
  intermediate_held = 40_000;
  free_underlying_held = 0;
  accumulated_creator_fees = 0;
  accumulated_protocol_fees = 0;
  wrapper_supply = 45_000;
  protocol_data = [];
}

abbrev pub config : GlobalConfig
config = record { paused = false; protocol_deposit_fee_bps = 20 }

abbrev pub accrued : AccruedKlend
accrued = record {
  borrowed_amount_sf = 500_000 * 2 ^ 60;
  accumulated_protocol_fees_sf = 1_000 * 2 ^ 60;
  pending_referrer_fees_sf = 0;
  accumulated_referrer_fees_sf = 0;
}

pub reserve_accrues : accrue_interest ⦃f = native_fixed⦄ reserve 100 (pos 1_000) ≡ ok accrued
unfolding accrue_interest since is_zero ◌>>=◌
reserve_accrues = refl

pub reserve_total :
    total_supply_fraction ⦃f = native_fixed⦄ reserve accrued ≡ ok (1_499_000 * 2 ^ 60)
unfolding total_supply_fraction total_supply_core ◌>>=◌ or_panic
reserve_total = refl

pub reserve-IsSolvent : IsSolvent reserve accrued (1_499_000 * 2 ^ 60)
reserve-IsSolvent = record {
  available_fits = omega arith;
  assets_fit = omega arith;
  is_total = refl;
}
