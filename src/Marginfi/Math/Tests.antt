-- ===== src/Marginfi/Math/Tests.antt =====
-- Runs of the accrual and the quotes, and the theorems at them.
use overpass_titan_venue.Base.{
  ◌*◌, ◌^◌, ◌≡◌, refl, [], ok, arith, false, ◌>>=◌, fail_if, ok_or, or_panic,
}
use overpass_titan_venue.Base.Safe.{Safe}
use overpass_titan_venue.Uint.Native.{native_uint, native_uint-IsUint}
use overpass_titan_venue.Int.{ℤ, pos, int_leb, int_sub, nat_sub, int_eqb, max_zero, to_i128}
use overpass_titan_venue.Common.State.{WrapperVault, GlobalConfig}
use overpass_titan_venue.Common.Checked.{mul_bps, u128_to_u64, require_no_value_per_share_loss}
use overpass_titan_venue.Common.Checked.Laws.{NotLoss}
use overpass_titan_venue.Marginfi.Signed.Native.{native_signed, native_signed-IsSigned}
use overpass_titan_venue.Marginfi.State.{MarginfiState, operational}
use overpass_titan_venue.Marginfi.Rates.{
  AccruedShareValues, seconds_per_year, get_asset_amount, get_liability_amount,
  create_interest_rate_calculator, get_fees, interest_rate_curve, calc_fee_rate, base_rate,
  calc_interest_rate, calc_accrued_interest_payment_per_period,
  calc_interest_rate_accrual_state_changes, accrue_share_values,
}
use overpass_titan_venue.Marginfi.Math.{
  can_deposit, can_withdraw, check_capacity, check_liquidity, marginfi_mint, quote_deposit,
  quote_withdraw,
}
use overpass_titan_venue.Marginfi.Math.Quotes.{
  IsBank, IsMarginfiWithdrawal, quote_withdraw-IsMarginfiWithdrawal,
}
use overpass_titan_venue.Marginfi.Math.Deposit.{IsMarginfiDeposit, quote_deposit-IsMarginfiDeposit}

abbrev bank : MarginfiState
bank = record {
  mint = [];
  mint_decimals = 6;
  asset_share_value = pos (2 ^ 48);
  liability_share_value = pos (2 ^ 48);
  liquidity_vault = [];
  total_liability_shares = pos (500_000 * 2 ^ 48);
  total_asset_shares = pos (1_000_000 * 2 ^ 48);
  last_update = pos 1_000;
  deposit_limit = 10_000_000;
  operational_state = operational;
  asset_tag = 0;
  cached_lending_rate = 0;
  cached_user_asset_shares = pos (50_000 * 2 ^ 48);
  underlying_token_program = [];
  oracle_setup = 0;
  oracle_keys = [];
  interest_rate_config = record {
    optimal_utilization_rate = pos (2 ^ 47);
    plateau_interest_rate = pos (2 ^ 45);
    max_interest_rate = pos (2 ^ 48);
    insurance_fee_fixed_apr = pos 0;
    insurance_ir_fee = pos 0;
    protocol_fixed_fee_apr = pos 0;
    protocol_ir_fee = pos (2 ^ 44);
    zero_util_rate = 0;
    hundred_util_rate = 0;
    points = [];
    curve_type = 0;
  };
  group_program_fees_enabled = false;
  group_program_fee_fixed = pos 0;
  group_program_fee_rate = pos 0;
}

abbrev vault : WrapperVault
vault = record {
  version = 1;
  bump = 0;
  vault_authority_bump = 0;
  protocol = 3;
  creation_timestamp = 0;
  creator = [];
  wrapper_mint = [];
  underlying_mint = [];
  source_pool = [];
  source_position_pda = [];
  creator_deposit_fee_bps = 30;
  intermediate_held = 0;
  free_underlying_held = 0;
  accumulated_creator_fees = 0;
  accumulated_protocol_fees = 0;
  wrapper_supply = 45_000;
  protocol_data = [];
}

abbrev config : GlobalConfig
config = record { paused = false; protocol_deposit_fee_bps = 20 }

-- After a month the suppliers earn half of an eighth a year.
abbrev month : ℤ
month = pos 2_629_000

abbrev accrued : AccruedShareValues
accrued = record {
  asset_share_value = pos 282940992214357;
  liability_share_value = pos 284590259656021;
}

accrues : accrue_share_values ⦃f = native_signed⦄ bank month ≡ ok accrued
unfolding accrue_share_values int_leb int_sub nat_sub max_zero get_asset_amount get_liability_amount
    int_eqb create_interest_rate_calculator calc_interest_rate_accrual_state_changes
    calc_interest_rate base_rate interest_rate_curve get_fees calc_fee_rate
    calc_accrued_interest_payment_per_period seconds_per_year ◌>>=◌ fail_if ok_or or_panic
accrues = refl

abbrev standing : IsBank bank accrued
standing = record {
  value = 282940992214357;
  liability_value = 284590259656021;
  shares = 50_000 * 2 ^ 48;
  total_shares = 1_000_000 * 2 ^ 48;
  liability_shares = 500_000 * 2 ^ 48;
  is_value = refl;
  is_liability_value = refl;
  is_shares = refl;
  is_total_shares = refl;
  is_liability_shares = refl;
  shares_fit = omega arith;
}

marginfi_runs :
    (quote_deposit ⦃u = native_uint⦄ ⦃f = native_signed⦄ bank month vault config 10_000 ≡ ok 8_908)
    × (quote_withdraw ⦃u = native_uint⦄ ⦃f = native_signed⦄ bank month vault 1_000 ≡ ok 1_116)
unfolding accrue_share_values int_leb int_sub nat_sub max_zero get_asset_amount get_liability_amount
    int_eqb create_interest_rate_calculator calc_interest_rate_accrual_state_changes
    calc_interest_rate base_rate interest_rate_curve get_fees calc_fee_rate
    calc_accrued_interest_payment_per_period seconds_per_year to_i128 can_deposit can_withdraw
    check_capacity check_liquidity marginfi_mint quote_deposit quote_withdraw mul_bps u128_to_u64
    require_no_value_per_share_loss ◌>>=◌ fail_if ok_or or_panic
marginfi_runs = (refl, refl)

quote_withdraw-IsMarginfiWithdrawal_example :
    Safe
      (IsMarginfiWithdrawal bank accrued standing vault 1_000)
      NotLoss
      (quote_withdraw ⦃u = native_uint⦄ ⦃f = native_signed⦄ bank month vault 1_000)
quote_withdraw-IsMarginfiWithdrawal_example =
    quote_withdraw-IsMarginfiWithdrawal ⦃u = native_uint⦄ ⦃f = native_signed⦄ native_uint-IsUint
      native_signed-IsSigned bank month vault accrued 1_000 accrues standing (omega arith)

quote_deposit-IsMarginfiDeposit_example :
    Safe
      (IsMarginfiDeposit bank accrued standing vault config 10_000)
      NotLoss
      (quote_deposit ⦃u = native_uint⦄ ⦃f = native_signed⦄ bank month vault config 10_000)
quote_deposit-IsMarginfiDeposit_example =
    quote_deposit-IsMarginfiDeposit ⦃u = native_uint⦄ ⦃f = native_signed⦄ native_uint-IsUint
      native_signed-IsSigned bank month vault config accrued 10_000 accrues standing (omega arith)
      (omega arith) (omega arith)
