-- ===== src/Klend/Math.antt =====
-- `src/your_venue/klend/math.rs`, second half: the exchange of liquidity and collateral and the
-- two quotes.
mod Tests
pub mod Exchange
pub mod Quotes
use overpass_titan_venue.Base.{
  ℕ, ◌+◌, ◌-◌, ◌*◌, ◌/◌, ◌^◌, not, Outcome, ok, err, ◌>>=◌, ◌>>◌, ok_or, or_panic, fail_if,
  math_error, ltb, leb, ◌==◌, ◌||◌, if◌then◌else◌, checked_mul, saturating_sub, u128_max,
}
use overpass_titan_venue.Uint.{Uint}
use overpass_titan_venue.Common.Checked.{u128_to_u64}
use overpass_titan_venue.Common.State.{WrapperVault, GlobalConfig}
use overpass_titan_venue.Shares.{net_of_fees, mint_share, check_mint, redeem_share, check_burn}
use overpass_titan_venue.Klend.Fixed.{Fixed}
use overpass_titan_venue.Klend.Fraction.{big_from_num, big_div, try_into_fraction}
use overpass_titan_venue.Int.{ℤ, max_zero}
use overpass_titan_venue.Klend.Caps.{remaining_amount}
use overpass_titan_venue.Klend.State.{KlendState}
use overpass_titan_venue.Klend.Accrual.{accrue_interest, total_supply_fraction}

abbrev program_version : ℕ
program_version = 1

pub record ExchangeRate : Type 0 where
  pub collateral : ℕ
  pub supply : ℕ

unfoldable pub exchange_rate_pair : ⦃f : Fixed⦄ → ℕ → ℕ → ExchangeRate
exchange_rate_pair ⦃f⦄ collateral_supply total_supply =
    if collateral_supply == 0 || total_supply == 0
    then record { collateral = 1; supply = f.one }
    else record { collateral = collateral_supply; supply = total_supply }

unfoldable pub liquidity_to_collateral : ⦃u : Uint⦄ → ⦃f : Fixed⦄ → ℕ → ℕ → ℕ → Outcome ℕ
liquidity_to_collateral ⦃u⦄ ⦃f⦄ liquidity_amount collateral_supply total_supply = do
  lhs ←
      ok_or (checked_mul u128_max collateral_supply liquidity_amount) (math_error "liq_to_col mul")
  big ← ok_or (big_from_num lhs) (math_error "liq_to_col from_num")
  quot ← ok_or (big_div big total_supply) (math_error "liq_to_col div")
  fraction ← ok_or (try_into_fraction quot) (math_error "liq_to_col convert")
  floor ← or_panic (f.floor fraction)
  floored ← or_panic (f.to_num u128_max floor)
  u128_to_u64 floored

unfoldable pub collateral_to_liquidity_ceil : ⦃u : Uint⦄ → ⦃f : Fixed⦄ → ℕ → ℕ → ℕ → Outcome ℕ
collateral_to_liquidity_ceil ⦃u⦄ ⦃f⦄ collateral_amount collateral_supply total_supply = do
  fail_if (collateral_supply == 0) (math_error "cs=0")
  product ← ok_or (u.mul? collateral_amount total_supply) (math_error "ceil mul")
  less_one ← or_panic (u.sub collateral_supply 1)
  numerator ← ok_or (u.add? product less_one) (math_error "ceil add")
  quotient ← or_panic (u.div numerator collateral_supply)
  bits ← ok_or (u.to_u128 quotient) (math_error "ceil convert")
  ceil ← or_panic (f.ceil bits)
  ceiled ← or_panic (f.to_num u128_max ceil)
  u128_to_u64 ceiled

unfoldable pub collateral_to_liquidity : ⦃u : Uint⦄ → ⦃f : Fixed⦄ → ℕ → ℕ → ℕ → Outcome ℕ
collateral_to_liquidity ⦃u⦄ ⦃f⦄ collateral_amount collateral_supply total_supply = do
  fail_if (collateral_supply == 0) (math_error "cs=0")
  product ← ok_or (u.mul? collateral_amount total_supply) (math_error "col_to_liq mul")
  quotient ← or_panic (u.div product collateral_supply)
  bits ← ok_or (u.to_u128 quotient) (math_error "col_to_liq convert")
  floor ← or_panic (f.floor bits)
  floored ← or_panic (f.to_num u128_max floor)
  u128_to_u64 floored

-- The bits of the fraction.
unfoldable pub fraction_collateral_to_liquidity : ⦃u : Uint⦄ → ℕ → ℕ → ℕ → Outcome ℕ
fraction_collateral_to_liquidity ⦃u⦄ collateral_amount collateral_supply total_supply = do
  fail_if (collateral_supply == 0) (math_error "cs=0")
  product ← ok_or (u.mul? collateral_amount total_supply) (math_error "frac mul")
  quotient ← or_panic (u.div product collateral_supply)
  ok_or (u.to_u128 quotient) (math_error "frac convert")

unfoldable pub fraction_liquidity_to_collateral_ceil : ⦃u : Uint⦄ → ℕ → ℕ → ℕ → Outcome ℕ
fraction_liquidity_to_collateral_ceil ⦃u⦄ liquidity_amount collateral_supply total_supply = do
  fail_if (collateral_supply == 0) (math_error "cs=0")
  fail_if (total_supply == 0) (math_error "ts=0")
  product ← ok_or (u.mul? liquidity_amount collateral_supply) (math_error "l2c mul")
  num ← ok_or (u.mul? product (2 ^ 60)) (math_error "l2c shift")
  sum ← or_panic (u.add num total_supply)
  less_one ← or_panic (u.sub sum 1)
  quotient ← or_panic (u.div less_one total_supply)
  v ← ok_or (u.to_u128 quotient) (math_error "l2c convert")
  u128_to_u64 v

unfoldable pub quote_deposit :
    ⦃u : Uint⦄ → ⦃f : Fixed⦄ → KlendState → ℕ → ℤ → WrapperVault → GlobalConfig → ℕ → Outcome ℕ
quote_deposit ⦃u⦄ ⦃f⦄ state current_slot unix_timestamp wv gc amount = do
  fail_if (amount == 0) (math_error "zero amount")
  fail_if state.emergency_mode (math_error "emergency mode")
  fail_if (not (state.version == program_version)) (math_error "reserve deprecated")
  fail_if (not (state.status == 0)) (math_error "reserve obsolete")
  fail_if state.block_ctoken_usage (math_error "ctoken usage blocked")
  accrued ← accrue_interest state current_slot unix_timestamp
  total_supply_f ← total_supply_fraction state accrued
  net_amount ← net_of_fees wv gc amount
  fail_if (net_amount == 0) (math_error "net zero")
  let pair = exchange_rate_pair state.collateral_mint_total_supply total_supply_f
  collateral_amount ← liquidity_to_collateral net_amount pair.collateral pair.supply
  fail_if (collateral_amount == 0) (math_error "collateral zero")
  liquidity_amount_to_deposit ←
      collateral_to_liquidity_ceil collateral_amount pair.collateral pair.supply
  fail_if (ltb net_amount liquidity_amount_to_deposit) (math_error "deposit > net")
  deposit_f ← or_panic (f.from_num liquidity_amount_to_deposit)
  new_supply_f ← or_panic (f.add deposit_f total_supply_f)
  limit_f ← or_panic (f.from_num state.deposit_limit)
  fail_if (ltb limit_f new_supply_f) (math_error "deposit limit")
  wrapper_to_mint ←
      mint_share "klend ctokens out of sync" "wrap mul" "wrap div" wv collateral_amount net_amount
  fail_if (wrapper_to_mint == 0) (math_error "mint zero")
  _ ← check_mint wv collateral_amount wrapper_to_mint
  ok wrapper_to_mint

unfoldable pub quote_withdraw :
    ⦃u : Uint⦄ → ⦃f : Fixed⦄ → KlendState → ℕ → ℤ → WrapperVault → ℕ → Outcome ℕ
quote_withdraw state current_slot unix_timestamp wv amount = do
  fail_if (amount == 0) (math_error "zero amount")
  fail_if state.emergency_mode (math_error "emergency mode")
  fail_if (not (state.version == program_version)) (math_error "reserve deprecated")
  fail_if (ltb wv.wrapper_supply amount) (math_error "burn exceeds supply")
  fail_if (wv.intermediate_held == 0) (math_error "no ctokens")
  ctokens_to_redeem ← redeem_share wv amount
  fail_if (ctokens_to_redeem == 0) (math_error "ctoken zero")
  accrued ← accrue_interest state current_slot unix_timestamp
  total_supply_f ← total_supply_fraction state accrued
  let pair = exchange_rate_pair state.collateral_mint_total_supply total_supply_f
  underlying_received ← collateral_to_liquidity ctokens_to_redeem pair.collateral pair.supply
  fail_if (underlying_received == 0) (math_error "underlying zero")
  queued_liquidity ←
      (if state.queued_collateral_amount == 0
        then ok 0
        else collateral_to_liquidity state.queued_collateral_amount pair.collateral pair.supply)
  let freely_available = saturating_sub state.total_available_amount queued_liquidity
  fail_if (ltb freely_available underlying_received) (math_error "insufficient liquidity")
  let remaining = remaining_amount state.deposit_withdrawal_cap (max_zero unix_timestamp)
  fail_if (ltb remaining underlying_received) (math_error "withdrawal cap")
  _ ← check_burn wv ctokens_to_redeem amount
  ok underlying_received
