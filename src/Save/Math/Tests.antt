-- ===== src/Save/Math/Tests.antt =====
-- Runs of the accrual and the quotes, and the theorems at them.
use overpass_titan_venue.Base.{
  ◌+◌, ◌*◌, ◌/◌, ◌^◌, ◌≤◌, ◌≡◌, refl, [], IsU128, ok, arith, false, ◌>>=◌, fail_if, ok_or, or_panic,
}
use overpass_titan_venue.Base.Safe.{Safe}
use overpass_titan_venue.Uint.Native.{native_uint, native_uint-IsUint}
use overpass_titan_venue.Common.State.{WrapperVault, GlobalConfig}
use overpass_titan_venue.Common.Checked.Laws.{NotLoss}
use overpass_titan_venue.Shares.Laws.{IsSized}
use overpass_titan_venue.Shares.{net_of_fees, mint_share, check_mint, redeem_share, check_burn}
use overpass_titan_venue.Shares.RoundTrip.{redeem_share-mint_share}
use overpass_titan_venue.Save.Wad.{
  wad, from_u64, from_percent, to_floor_u64, wad_mul, wad_div, wad_pow,
}
use overpass_titan_venue.Common.Checked.{mul_bps, u128_to_u64, require_no_value_per_share_loss}
use overpass_titan_venue.Save.Wad.Power.{IsBetween, IsTooLarge, wad_pow-IsBetween}
use overpass_titan_venue.Save.State.{SaveState}
use overpass_titan_venue.Save.Math.{
  quote_deposit, quote_withdraw, pre_accrue, liquidity_to_collateral, collateral_to_liquidity,
  accrue_interest, current_borrow_rate, utilization_rate, low_segment, middle_segment, high_segment,
  total_supply_wad, exchange_rate,
}
use overpass_titan_venue.Save.Math.Rates.{IsReserve, pre_accrue-IsReserve}
use overpass_titan_venue.Save.Math.Quotes.{
  IsSaveDeposit, IsSaveWithdrawal, quote_deposit-IsSaveDeposit, quote_withdraw-IsSaveWithdrawal,
}
use overpass_titan_venue.Save.Math.RoundTrip.{collateral_to_liquidity-liquidity_to_collateral}

abbrev reserve : SaveState
reserve = record {
  last_update_slot = 100;
  lending_market = [];
  mint_pubkey = [];
  supply_vault = [];
  pyth_oracle = [];
  switchboard_oracle = [];
  available_amount = 1_000_000;
  borrowed_amount_wads = 500_000 * wad;
  accumulated_protocol_fees_wads = 0;
  collateral_mint_pubkey = [];
  collateral_supply_vault = [];
  collateral_mint_total_supply = 1_200_000;
  optimal_utilization_rate = 80;
  max_utilization_rate = 90;
  min_borrow_rate = 0;
  optimal_borrow_rate = 8;
  max_borrow_rate = 20;
  super_max_borrow_rate = 150;
  protocol_take_rate = 10;
  deposit_limit = 10_000_000;
  extra_oracle_pubkey = [];
}

abbrev vault : WrapperVault
vault = record {
  version = 1;
  bump = 0;
  vault_authority_bump = 0;
  protocol = 2;
  creation_timestamp = 0;
  creator = [];
  wrapper_mint = [];
  underlying_mint = [];
  source_pool = [];
  source_position_pda = [];
  creator_deposit_fee_bps = 30;
  intermediate_held = 40_000;
  free_underlying_held = 0;
  accumulated_creator_fees = 0;
  accumulated_protocol_fees = 0;
  wrapper_supply = 45_000;
  protocol_data = [];
}

abbrev config : GlobalConfig
config = record { paused = false; protocol_deposit_fee_bps = 20 }

reserve-IsReserve : IsReserve reserve
reserve-IsReserve = omega arith

vault-IsSized : IsSized vault
vault-IsSized = omega arith

-- What a run of the quotes computes through.
save_runs : Unit {0}
unfolding quote_deposit quote_withdraw ◌>>=◌ fail_if ok_or or_panic accrue_interest
    current_borrow_rate utilization_rate low_segment middle_segment high_segment from_u64
    from_percent to_floor_u64 wad_div wad_mul wad_pow total_supply_wad exchange_rate net_of_fees
    mul_bps u128_to_u64 liquidity_to_collateral collateral_to_liquidity mint_share check_mint
    redeem_share check_burn require_no_value_per_share_loss
save_runs = tt

quote_deposit_run : quote_deposit ⦃u = native_uint⦄ reserve 200 vault config 10_000 ≡ ok 8953
unfolding save_runs
quote_deposit_run = refl

-- A supply of 2 ^ 64 units or more is cut before the comparison with the limit.
abbrev large_reserve : SaveState
large_reserve = record reserve {
  available_amount = 0;
  borrowed_amount_wads = 2 ^ 64 * wad;
  collateral_mint_total_supply = 2 ^ 63;
  deposit_limit = 10_000;
  last_update_slot = 200;
}

quote_deposit_large :
    quote_deposit ⦃u = native_uint⦄ large_reserve 200 vault config 10_000 ≡ ok 5596
unfolding save_runs
quote_deposit_large = refl

quote_withdraw_run : quote_withdraw ⦃u = native_uint⦄ reserve 200 vault 5_000 ≡ ok 5555
unfolding save_runs
quote_withdraw_run = refl

quote_deposit-IsSaveDeposit_example :
    Safe
      (IsSaveDeposit ⦃u = native_uint⦄ reserve 200 vault config 10_000)
      NotLoss
      (quote_deposit ⦃u = native_uint⦄ reserve 200 vault config 10_000)
quote_deposit-IsSaveDeposit_example =
    quote_deposit-IsSaveDeposit ⦃u = native_uint⦄ native_uint-IsUint reserve 200 vault config 10_000
      reserve-IsReserve (omega arith) vault-IsSized (omega arith)

quote_withdraw-IsSaveWithdrawal_example :
    Safe
      (IsSaveWithdrawal ⦃u = native_uint⦄ reserve 200 vault 5_000)
      NotLoss
      (quote_withdraw ⦃u = native_uint⦄ reserve 200 vault 5_000)
quote_withdraw-IsSaveWithdrawal_example =
    quote_withdraw-IsSaveWithdrawal ⦃u = native_uint⦄ native_uint-IsUint reserve 200 vault 5_000
      reserve-IsReserve (omega arith) vault-IsSized

pre_accrue-IsReserve_example :
    Safe
      (λ t.
        IsReserve t
        × (t.last_update_slot ≡ 200)
        × (reserve.borrowed_amount_wads ≤ t.borrowed_amount_wads)
        × (reserve.accumulated_protocol_fees_wads ≤ t.accumulated_protocol_fees_wads)
        × (t.available_amount ≡ reserve.available_amount)
        × (t.collateral_mint_total_supply ≡ reserve.collateral_mint_total_supply))
      NotLoss
      (pre_accrue ⦃u = native_uint⦄ reserve 200)
pre_accrue-IsReserve_example =
    pre_accrue-IsReserve ⦃u = native_uint⦄ native_uint-IsUint reserve 200 reserve-IsReserve
      (omega arith)

wad_pow-IsBetween_example :
    Safe
      (λ r. IsU128 r × IsBetween (wad + 1_000_000) 1_000_003 r)
      (IsTooLarge (wad + 1_000_000) 1_000_003)
      (wad_pow ⦃u = native_uint⦄ (wad + 1_000_000) 1_000_003)
wad_pow-IsBetween_example =
    wad_pow-IsBetween ⦃u = native_uint⦄ native_uint-IsUint (wad + 1_000_000) 1_000_003 (omega arith)
      (omega arith)

collateral_round_trip_example : 99 ≤ 100
unfolding save_runs
collateral_round_trip_example =
    collateral_to_liquidity-liquidity_to_collateral ⦃u = native_uint⦄ native_uint-IsUint 100
      (9 * (wad / 7)) 128 99 (omega arith) (omega arith) (omega arith) refl refl

redeem_share-mint_share_example : 99 ≤ 100
unfolding save_runs
redeem_share-mint_share_example =
    redeem_share-mint_share "save: ctokens out of sync" "mint mul" "mint div" vault 100 7 112 99
      refl refl refl (omega arith) (omega arith) refl refl
