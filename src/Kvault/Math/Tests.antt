-- ===== src/Kvault/Math/Tests.antt =====
-- Runs of the quotes, and the theorems at them.
use overpass_titan_venue.Base.{
  ℕ, ◌*◌, ◌^◌, ◌≡◌, refl, [], ◌∷◌, none, some, ok, arith, Bool, true, false, Pubkey, ◌>>=◌, fail_if,
  ok_or, or_panic, bytes_eq, if◌then◌else◌,
}
use overpass_titan_venue.Base.Safe.{Safe, Safe-ok, Safe-ok->>=}
use overpass_titan_venue.Uint.Native.{native_uint, native_uint-IsUint}
use overpass_titan_venue.Int.{pos, max_zero}
use overpass_titan_venue.Common.Checked.{mul_bps, u128_to_u64, require_no_value_per_share_loss}
use overpass_titan_venue.Common.Checked.Laws.{NotLoss}
use overpass_titan_venue.Klend.Fixed.Native.{native_fixed, native_fixed-IsFixed}
use overpass_titan_venue.Klend.Samples.{reserve, vault, config, reserve_accrues, reserve_total}
use overpass_titan_venue.Klend.State.{KlendState}
use overpass_titan_venue.Klend.Accrual.{
  accrue_interest, total_supply_fraction, total_supply_core, since, is_zero,
}
use overpass_titan_venue.Klend.Math.{
  exchange_rate_pair, fraction_collateral_to_liquidity, fraction_liquidity_to_collateral_ceil,
}
use overpass_titan_venue.Kvault.State.{KvaultState}
use overpass_titan_venue.Kvault.Holdings.{
  bps_to_fraction, fraction_full_mul_int_ratio, find_reserve, reserve_rate, invested_for_allocation,
  invested_from, invested_total, management_charge, performance_charge, charged_pending_fees,
  compute_current_aum, current_aum, get_shares_to_mint,
}
use overpass_titan_venue.Kvault.Math.{
  max_user_tokens, kvault_mint, disinvest, final_for_user, redeem_units, redeem_value, less_penalty,
  quote_deposit, quote_withdraw,
}
use overpass_titan_venue.Kvault.Math.Deposit.{IsKvaultDeposit, quote_deposit-IsKvaultDeposit}
use overpass_titan_venue.Kvault.Math.Withdraw.{
  IsRate, IsKvaultWithdrawal, quote_withdraw-IsKvaultWithdrawal,
}

abbrev key : Pubkey
key = 7 ∷ []

-- Most of the vault is invested in one reserve, and a tenth of a percent is the penalty.
abbrev state : KvaultState
state = record {
  token_mint = [];
  token_mint_decimals = 6;
  token_vault = [];
  shares_mint = [];
  base_vault_authority = [];
  token_available = 500;
  shares_issued = 100_000;
  crank_fund_fee_per_reserve = 10;
  performance_fee_bps = 1_000;
  management_fee_bps = 100;
  last_fee_charge_timestamp = 900;
  prev_aum_sf = 120_000 * 2 ^ 60;
  pending_fees_sf = 100 * 2 ^ 60;
  min_deposit_amount = 100;
  min_withdraw_amount = 10;
  vault_withdrawal_penalty_lamports = 1;
  vault_withdrawal_penalty_bps = 10;
  active_allocations =
      record {
        reserve = key;
        ctoken_vault = [];
        target_allocation_weight = 1;
        token_allocation_cap = 1_000_000;
        ctoken_allocation = 100_000;
        slot_index = 0;
      }
      ∷ [];
  global_withdrawal_penalty_lamports = 0;
  global_withdrawal_penalty_bps = 5;
  cached_reserves = (key, reserve) ∷ [];
  cached_farm_state = none;
  underlying_token_program = [];
  position_kvault_shares = 40_000;
  cached_aum_sf = none;
  cached_max_deposit = 1_000_000;
  deposit_cap = 0;
}

abbrev aum : ℕ
aum = 143_867_305_568_206_418_423_350

is_aum : current_aum ⦃u = native_uint⦄ ⦃f = native_fixed⦄ state 100 (pos 1_000) ≡ ok aum
unfolding current_aum compute_current_aum invested_total invested_from invested_for_allocation
    reserve_rate find_reserve exchange_rate_pair fraction_collateral_to_liquidity accrue_interest
    since is_zero total_supply_fraction total_supply_core charged_pending_fees management_charge
    performance_charge bps_to_fraction max_zero ◌>>=◌ fail_if ok_or or_panic
is_aum = refl

kvault_runs :
    (quote_deposit ⦃u = native_uint⦄ ⦃f = native_fixed⦄ state 100 (pos 1_000) vault config 10_000
      ≡ ok 8_960)
    × (quote_withdraw ⦃u = native_uint⦄ ⦃f = native_fixed⦄ state 100 (pos 1_000) vault 1_000
        ≡ ok 1_105)
unfolding current_aum compute_current_aum invested_total invested_from invested_for_allocation
    reserve_rate find_reserve exchange_rate_pair fraction_collateral_to_liquidity accrue_interest
    since is_zero total_supply_fraction total_supply_core charged_pending_fees management_charge
    performance_charge bps_to_fraction max_zero get_shares_to_mint fraction_full_mul_int_ratio
    fraction_liquidity_to_collateral_ceil max_user_tokens kvault_mint disinvest final_for_user
    redeem_units redeem_value less_penalty quote_deposit quote_withdraw mul_bps u128_to_u64
    require_no_value_per_share_loss ◌>>=◌ fail_if ok_or or_panic
kvault_runs = (refl, refl)

if_some : (b : Bool) (a r : KlendState) → (if b then some a else none) ≡ some r → a ≡ r
if_some true a r h = cc
if_some false a r h = absurd cc

found : (k : Pubkey) (r : KlendState) → find_reserve k state.cached_reserves ≡ some r → reserve ≡ r
unfolding find_reserve
found k r h = if_some (bytes_eq key k) reserve r h

cached_rates :
    (k : Pubkey) (r : KlendState)
    → find_reserve k state.cached_reserves ≡ some r
    → Safe IsRate NotLoss (reserve_rate ⦃f = native_fixed⦄ r 100 (pos 1_000))
unfolding reserve_rate exchange_rate_pair
cached_rates k r h = rw (← found k r h) (
    Safe-ok->>= _ _ reserve_accrues
      (Safe-ok->>= _ _ reserve_total (Safe-ok _ (omega arith, omega arith))))

quote_deposit-IsKvaultDeposit_example :
    Safe
      (IsKvaultDeposit state vault config aum 10_000)
      NotLoss
      (quote_deposit ⦃u = native_uint⦄ ⦃f = native_fixed⦄ state 100 (pos 1_000) vault config 10_000)
quote_deposit-IsKvaultDeposit_example =
    quote_deposit-IsKvaultDeposit ⦃u = native_uint⦄ ⦃f = native_fixed⦄ native_uint-IsUint
      native_fixed-IsFixed state 100 (pos 1_000) vault config aum 10_000 is_aum (omega arith)
      (omega arith) (omega arith) (record { held_fits = omega arith; supply_fits = omega arith })
      (omega arith)

quote_withdraw-IsKvaultWithdrawal_example :
    Safe
      (IsKvaultWithdrawal state vault aum 1_000)
      NotLoss
      (quote_withdraw ⦃u = native_uint⦄ ⦃f = native_fixed⦄ state 100 (pos 1_000) vault 1_000)
quote_withdraw-IsKvaultWithdrawal_example =
    quote_withdraw-IsKvaultWithdrawal ⦃u = native_uint⦄ ⦃f = native_fixed⦄ native_uint-IsUint
      native_fixed-IsFixed state 100 (pos 1_000) cached_rates vault aum 1_000 is_aum (omega arith)
      (omega arith) (record { held_fits = omega arith; supply_fits = omega arith })
