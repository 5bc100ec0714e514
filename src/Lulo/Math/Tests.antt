-- ===== src/Lulo/Math/Tests.antt =====
-- Runs of the value and the quotes, and the theorems at them.
use overpass_titan_venue.Base.{
  ◌^◌, ◌≡◌, refl, [], ok, arith, false, ◌>>=◌, fail_if, ok_or, or_panic,
}
use overpass_titan_venue.Base.Safe.{Safe}
use overpass_titan_venue.Uint.Native.{native_uint, native_uint-IsUint}
use overpass_titan_venue.Common.State.{WrapperVault, GlobalConfig}
use overpass_titan_venue.Common.Checked.Laws.{NotLoss}
use overpass_titan_venue.Common.Checked.{mul_bps, u128_to_u64, require_no_value_per_share_loss}
use overpass_titan_venue.Lulo.State.{LuloState}
use overpass_titan_venue.Lulo.Math.{
  cpos, fee_from_profit, position_fee_usdc, lulo_lp_value, fee_lp_ceil, predict_value, lulo_mint,
  n_owed, quote_deposit, quote_withdraw,
}
use overpass_titan_venue.Lulo.Math.Deposit.{IsLuloDeposit, quote_deposit-IsLuloDeposit}
use overpass_titan_venue.Lulo.Math.Withdraw.{IsLuloWithdrawal, quote_withdraw-IsLuloWithdrawal}

abbrev pool : LuloState
pool = record {
  halted_flag = 0;
  boosted_only_halted_flag = 0;
  coverage_float_bps = 0;
  protected_total_supply = 1_000_000;
  regular_total_supply = 0;
  regular_amount = 0;
  protected_amount = 1_100_000;
  deposit_limit = 10_000_000;
  total_liquidity = 1_100_000;
  basis_q60 = 0;
  charged_q60 = 2 ^ 60;
  avg_q60 = 2 ^ 60;
  ref_bps = 1_000;
}

abbrev vault : WrapperVault
vault = record {
  version = 1;
  bump = 0;
  vault_authority_bump = 0;
  protocol = 2;
  creation_timestamp = 0;
  creator = [];
  wrapper_mint = [];
  underlying_mint = [];
  source_pool = [];
  source_position_pda = [];
  creator_deposit_fee_bps = 30;
  intermediate_held = 40_000;
  free_underlying_held = 0;
  accumulated_creator_fees = 0;
  accumulated_protocol_fees = 0;
  wrapper_supply = 45_000;
  protocol_data = [];
}

abbrev config : GlobalConfig
config = record { paused = false; protocol_deposit_fee_bps = 20 }

lulo_runs :
    (lulo_lp_value ⦃u = native_uint⦄ 1_100_000 1_000_000 40_000 (2 ^ 60) (2 ^ 60) 1_000 ≡ ok 43_601)
    × (quote_deposit ⦃u = native_uint⦄ pool vault config 10_000 ≡ ok 10_268)
    × (quote_withdraw ⦃u = native_uint⦄ pool vault 1_000 ≡ ok 964)
unfolding quote_deposit quote_withdraw cpos fee_from_profit position_fee_usdc lulo_lp_value
    fee_lp_ceil predict_value lulo_mint n_owed mul_bps u128_to_u64 require_no_value_per_share_loss
    ◌>>=◌ fail_if ok_or or_panic
lulo_runs = (refl, refl, refl)

quote_withdraw-IsLuloWithdrawal_example :
    Safe
      (IsLuloWithdrawal ⦃u = native_uint⦄ pool vault 1_000)
      NotLoss
      (quote_withdraw ⦃u = native_uint⦄ pool vault 1_000)
quote_withdraw-IsLuloWithdrawal_example =
    quote_withdraw-IsLuloWithdrawal ⦃u = native_uint⦄ native_uint-IsUint pool vault 1_000
      (omega arith) (omega arith)

quote_deposit-IsLuloDeposit_example :
    Safe
      (IsLuloDeposit ⦃u = native_uint⦄ pool vault config 10_000)
      NotLoss
      (quote_deposit ⦃u = native_uint⦄ pool vault config 10_000)
quote_deposit-IsLuloDeposit_example =
    quote_deposit-IsLuloDeposit ⦃u = native_uint⦄ native_uint-IsUint pool vault config 10_000
      (omega arith) (omega arith)
