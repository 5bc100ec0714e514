-- ===== src/Marginfi/Math.antt =====
-- `src/your_venue/marginfi/math.rs`: the two quotes. A signed fraction is its bits.
mod Tests
pub mod Quotes
pub mod Deposit
use overpass_titan_venue.Base.{
  ℕ, ◌+◌, Bool, List, Option, Outcome, ok, err, ◌>>=◌, ◌>>◌, ok_or, or_panic, fail_if, math_error,
  not, ltb, ◌==◌, ◌||◌, if◌then◌else◌, checked_add, checked_sub, checked_mul, checked_div, u64_max,
  u128_max,
}
use overpass_titan_venue.Uint.{Uint}
use overpass_titan_venue.Int.{ℤ, pos, int_leb, int_eqb, max_zero, to_i128}
use overpass_titan_venue.Common.Checked.{mul_bps, require_no_value_per_share_loss}
use overpass_titan_venue.Common.State.{WrapperVault, GlobalConfig}
use overpass_titan_venue.Shares.{and_then}
use overpass_titan_venue.Marginfi.Signed.{Signed}
use overpass_titan_venue.Marginfi.State.{
  MarginfiState, BankOperationalState, paused, operational, reduce_only, killed_by_bankruptcy,
}
use overpass_titan_venue.Marginfi.Rates.{AccruedShareValues, accrue_share_values}

abbrev asset_tag_drift : ℕ
asset_tag_drift = 4

-- The match on the state of the bank, in a deposit and in a withdrawal.
unfoldable pub can_deposit : BankOperationalState → Outcome (Unit {0})
can_deposit killed_by_bankruptcy = err (math_error "bank killed")
can_deposit paused = err (math_error "bank paused")
can_deposit reduce_only = err (math_error "bank reduce only")
can_deposit operational = ok tt

unfoldable pub can_withdraw : BankOperationalState → Outcome (Unit {0})
can_withdraw killed_by_bankruptcy = err (math_error "bank killed")
can_withdraw paused = err (math_error "bank paused")
can_withdraw operational = ok tt
can_withdraw reduce_only = ok tt

-- The limit on deposits; none where it is 0 or the largest number.
unfoldable pub check_capacity : ⦃f : Signed⦄ → MarginfiState → ℤ → ℤ → Outcome (Unit {0})
check_capacity ⦃f⦄ state share_value shares_delta =
    if state.deposit_limit == 0 || state.deposit_limit == u64_max then ok tt else (do
      new_total_shares ←
          ok_or (f.checked_add state.total_asset_shares shares_delta) (math_error "total shares")
      new_total_assets ←
          ok_or (f.checked_mul new_total_shares share_value) (math_error "get_asset_amount")
      limit ← or_panic (f.from_num state.deposit_limit)
      fail_if (int_leb limit new_total_assets) (math_error "capacity exceeded"))

unfoldable pub marginfi_mint : ⦃f : Signed⦄ → WrapperVault → ℤ → ℤ → ℕ → Outcome ℕ
marginfi_mint ⦃f⦄ wv shares_delta pre_balance net_amount =
    if wv.wrapper_supply == 0 then ok net_amount else (do
      fail_if (int_leb pre_balance (pos 0)) (math_error "wrapper>0 pre-balance zero")
      supply ← or_panic (f.from_num wv.wrapper_supply)
      calc ←
          ok_or (and_then (f.checked_mul shares_delta supply) (λ x. f.checked_div x pre_balance))
            (math_error "wrap calc")
      floor ← or_panic (f.floor calc)
      ok_or (f.checked_to_u64 floor) (math_error "mint overflow"))

unfoldable pub quote_deposit :
    ⦃u : Uint⦄ → ⦃f : Signed⦄ → MarginfiState → ℤ → WrapperVault → GlobalConfig → ℕ → Outcome ℕ
unfolding can_deposit check_capacity marginfi_mint
quote_deposit ⦃u⦄ ⦃f⦄ state unix_timestamp wv gc amount = do
  fail_if (amount == 0) (math_error "zero amount")
  fail_if (state.asset_tag == asset_tag_drift) (math_error "drift asset_tag unsupported")
  _ ← can_deposit state.operational_state
  protocol_fee ← mul_bps amount gc.protocol_deposit_fee_bps
  creator_fee ← mul_bps amount wv.creator_deposit_fee_bps
  total_fee ← ok_or (checked_add u64_max protocol_fee creator_fee) (math_error "fee sum")
  net_amount ← ok_or (checked_sub amount total_fee) (math_error "net amount")
  fail_if (net_amount == 0) (math_error "net zero")
  accrued ← accrue_share_values state unix_timestamp
  fail_if (int_eqb accrued.asset_share_value (pos 0)) (math_error "share value zero")
  value ← or_panic (f.from_num net_amount)
  shares_delta ←
      ok_or (f.checked_div value accrued.asset_share_value) (math_error "get_asset_shares")
  _ ← check_capacity state accrued.asset_share_value shares_delta
  let pre_balance = state.cached_user_asset_shares
  fail_if (int_leb shares_delta (pos 0)) (math_error "shares zero")
  wrapper_to_mint ← marginfi_mint wv shares_delta pre_balance net_amount
  fail_if (wrapper_to_mint == 0) (math_error "mint zero")
  let pre_asset_shares_raw = max_zero pre_balance
  let expected_asset_shares_raw = max_zero shares_delta
  new_asset_shares_raw ←
      ok_or (checked_add u128_max pre_asset_shares_raw expected_asset_shares_raw)
        (math_error "new shares total")
  new_wrapper_supply ←
      ok_or (checked_add u64_max wv.wrapper_supply wrapper_to_mint) (math_error "new supply")
  _ ←
      require_no_value_per_share_loss pre_asset_shares_raw wv.wrapper_supply new_asset_shares_raw
        new_wrapper_supply
  ok wrapper_to_mint

-- What stays in the bank after a withdrawal covers its liabilities.
unfoldable pub check_liquidity :
    ⦃f : Signed⦄ → MarginfiState → AccruedShareValues → ℕ → Outcome (Unit {0})
check_liquidity ⦃f⦄ state accrued requested = do
  total_assets ←
      ok_or (f.checked_mul state.total_asset_shares accrued.asset_share_value)
        (math_error "total assets")
  total_liabilities ←
      ok_or (f.checked_mul state.total_liability_shares accrued.liability_share_value)
        (math_error "total liabilities")
  withdrawn ← or_panic (f.from_num requested)
  post_assets ← ok_or (f.checked_sub total_assets withdrawn) (math_error "insufficient liquidity")
  fail_if (not (int_leb total_liabilities post_assets)) (math_error "liabilities")

unfoldable pub quote_withdraw :
    ⦃u : Uint⦄ → ⦃f : Signed⦄ → MarginfiState → ℤ → WrapperVault → ℕ → Outcome ℕ
unfolding can_withdraw check_liquidity
quote_withdraw ⦃u⦄ ⦃f⦄ state unix_timestamp wv amount = do
  fail_if (amount == 0) (math_error "zero amount")
  fail_if (state.asset_tag == asset_tag_drift) (math_error "drift asset_tag unsupported")
  _ ← can_withdraw state.operational_state
  fail_if (ltb wv.wrapper_supply amount) (math_error "burn exceeds supply")
  fail_if (int_leb state.cached_user_asset_shares (pos 0)) (math_error "cached shares zero")
  let total_shares_raw = max_zero state.cached_user_asset_shares
  shares_pro_rata ←
      ok_or
        (and_then (checked_mul u128_max amount total_shares_raw)
          (λ x. checked_div x wv.wrapper_supply))
        (math_error "pro rata")
  fail_if (shares_pro_rata == 0) (math_error "pro rata zero")
  accrued ← accrue_share_values state unix_timestamp
  underlying ←
      ok_or (f.checked_mul (to_i128 shares_pro_rata) accrued.asset_share_value)
        (math_error "get_asset_amount")
  floor ← or_panic (f.floor underlying)
  requested ← ok_or (f.checked_to_u64 floor) (math_error "underlying overflow")
  fail_if (requested == 0) (math_error "underlying zero")
  _ ← check_liquidity state accrued requested
  new_asset_shares_raw ←
      ok_or (checked_sub total_shares_raw shares_pro_rata) (math_error "new shares total")
  new_wrapper_supply ← ok_or (checked_sub wv.wrapper_supply amount) (math_error "new supply")
  _ ←
      require_no_value_per_share_loss total_shares_raw wv.wrapper_supply new_asset_shares_raw
        new_wrapper_supply
  ok requested
