-- ===== src/Klend/Math/Tests.antt =====
-- Runs of the caps and the quotes, and the theorems at them.
use overpass_titan_venue.Base.{◌*◌, ◌^◌, ◌≤◌, ◌≡◌, refl, ok, arith, ◌>>=◌, fail_if, ok_or, or_panic}
use overpass_titan_venue.Base.Safe.{Safe}
use overpass_titan_venue.Uint.Native.{native_uint, native_uint-IsUint}
use overpass_titan_venue.Common.Checked.Laws.{NotLoss}
use overpass_titan_venue.Common.Checked.{mul_bps, u128_to_u64, require_no_value_per_share_loss}
use overpass_titan_venue.Shares.{net_of_fees, mint_share, check_mint, redeem_share, check_burn}
use overpass_titan_venue.Shares.Laws.{IsSized}
use overpass_titan_venue.Klend.Fixed.Native.{native_fixed, native_fixed-IsFixed}
use overpass_titan_venue.Klend.Fraction.{checked_shl, big_from_num, big_div, try_into_fraction}
use overpass_titan_venue.Int.{pos, int_leb, int_sub, int_to_u64, max_zero, nat_sub}
use overpass_titan_venue.Klend.Caps.{remaining_amount}
use overpass_titan_venue.Klend.Caps.Laws.{IsI64, Remains, counted, remaining_amount-Remains}
use overpass_titan_venue.Klend.Samples.{
  cap, reserve, vault, config, accrued, reserve_accrues, reserve_total, reserve-IsSolvent,
}
use overpass_titan_venue.Klend.Accrual.{
  accrue_interest, total_supply_fraction, total_supply_core, since, is_zero,
}
use overpass_titan_venue.Klend.Math.{
  quote_deposit, quote_withdraw, exchange_rate_pair, liquidity_to_collateral,
  collateral_to_liquidity, collateral_to_liquidity_ceil,
}
use overpass_titan_venue.Klend.Math.Exchange.{collateral_to_liquidity_ceil-liquidity_to_collateral}
use overpass_titan_venue.Klend.Math.Quotes.{
  IsKlendDeposit, IsKlendWithdrawal, quote_deposit-IsKlendDeposit, quote_withdraw-IsKlendWithdrawal,
}

klend_runs :
    (quote_deposit ⦃u = native_uint⦄ ⦃f = native_fixed⦄ reserve 100 (pos 1_000) vault config 10_000
      ≡ ok 8960)
    × (quote_withdraw ⦃u = native_uint⦄ ⦃f = native_fixed⦄ reserve 100 (pos 1_000) vault 1_000
        ≡ ok 1109)
    × (liquidity_to_collateral ⦃u = native_uint⦄ ⦃f = native_fixed⦄ 1_000 1_200_000
          (1_499_000 * 2 ^ 60)
        ≡ ok 800)
    × (remaining_amount cap 1_000 ≡ 510_000)
unfolding quote_deposit quote_withdraw accrue_interest since is_zero total_supply_fraction
    total_supply_core exchange_rate_pair liquidity_to_collateral collateral_to_liquidity
    collateral_to_liquidity_ceil checked_shl big_from_num big_div try_into_fraction remaining_amount
    int_leb int_sub int_to_u64 max_zero nat_sub net_of_fees mint_share check_mint redeem_share
    check_burn mul_bps u128_to_u64 require_no_value_per_share_loss ◌>>=◌ fail_if ok_or or_panic
klend_runs = (refl, refl, refl, refl)

vault-IsSized : IsSized vault
vault-IsSized = omega arith

quote_deposit-IsKlendDeposit_example :
    Safe
      (IsKlendDeposit ⦃u = native_uint⦄ ⦃f = native_fixed⦄ reserve vault config
        (1_499_000 * 2 ^ 60)
        10_000)
      NotLoss
      (quote_deposit ⦃u = native_uint⦄ ⦃f = native_fixed⦄ reserve 100
        (pos 1_000)
        vault
        config
        10_000)
quote_deposit-IsKlendDeposit_example =
    quote_deposit-IsKlendDeposit ⦃u = native_uint⦄ ⦃f = native_fixed⦄ native_uint-IsUint
      native_fixed-IsFixed reserve 100 (pos 1_000) vault config accrued (1_499_000 * 2 ^ 60) 10_000
      reserve_accrues reserve_total (omega arith) (omega arith) (omega arith) vault-IsSized
      (omega arith)

quote_withdraw-IsKlendWithdrawal_example :
    Safe
      (IsKlendWithdrawal ⦃u = native_uint⦄ ⦃f = native_fixed⦄ reserve
        (pos 1_000)
        vault
        (1_499_000 * 2 ^ 60)
        1_000)
      NotLoss
      (quote_withdraw ⦃u = native_uint⦄ ⦃f = native_fixed⦄ reserve 100 (pos 1_000) vault 1_000)
quote_withdraw-IsKlendWithdrawal_example =
    quote_withdraw-IsKlendWithdrawal ⦃u = native_uint⦄ ⦃f = native_fixed⦄ native_uint-IsUint
      native_fixed-IsFixed reserve 100 (pos 1_000) vault accrued (1_499_000 * 2 ^ 60) 1_000
      reserve_accrues reserve-IsSolvent (omega arith) (omega arith) vault-IsSized

ceil_round_trip_example :
    Safe
      (λ d. (d ≤ 1_000) × (800 * (1_499_000 * 2 ^ 60) ≤ d * 2 ^ 60 * 1_200_000))
      (λ _. ⊥)
      (collateral_to_liquidity_ceil ⦃u = native_uint⦄ ⦃f = native_fixed⦄ 800 1_200_000
        (1_499_000 * 2 ^ 60))
ceil_round_trip_example =
    collateral_to_liquidity_ceil-liquidity_to_collateral ⦃u = native_uint⦄ ⦃f = native_fixed⦄
      native_uint-IsUint native_fixed-IsFixed 1_000 1_200_000 (1_499_000 * 2 ^ 60) 800 (omega arith)
      (omega arith) (omega arith) (omega arith) klend_runs.2

remaining_amount-Remains_example :
    Remains (counted cap 1_000) (pos 500_000) (remaining_amount cap 1_000)
unfolding IsI64
remaining_amount-Remains_example =
    remaining_amount-Remains cap 1_000 (omega arith) (omega arith) (omega arith)
