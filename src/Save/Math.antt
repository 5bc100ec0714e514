-- ===== src/Save/Math.antt =====
-- `src/your_venue/save/math.rs`: accrual of interest, the exchange rate and the two quotes.
pub mod Rates
pub mod Quotes
pub mod RoundTrip
mod Tests
use overpass_titan_venue.Base.{
  ℕ, ◌+◌, ◌-◌, ◌*◌, ◌/◌, Outcome, ok, err, ◌>>=◌, ◌>>◌, ok_or, fail_if, math_error, ltb, leb, ◌==◌,
  ◌||◌, if◌then◌else◌, checked_add, checked_sub, saturating_sub, saturating_add, saturating_mul,
  u64_max, u128_max,
}
use overpass_titan_venue.Uint.{Uint}
use overpass_titan_venue.Common.State.{WrapperVault, GlobalConfig}
use overpass_titan_venue.Shares.{
  net_of_fees, mint_share, check_mint, redeem_share, check_burn, and_then,
}
use overpass_titan_venue.Save.Wad.{
  wad, slots_per_year, from_u64, from_percent, to_floor_u64, wad_mul, wad_div, wad_pow,
}
use overpass_titan_venue.Save.State.{SaveState}

abbrev pub initial_collateral_rate : ℕ
initial_collateral_rate = wad

pub record AccruedSave : Type 0 where
  pub borrowed_amount_wads : ℕ
  pub accumulated_protocol_fees_wads : ℕ

unfoldable pub utilization_rate : ⦃u : Uint⦄ → SaveState → AccruedSave → Outcome ℕ
utilization_rate state accrued = if accrued.borrowed_amount_wads == 0 then ok 0 else (do
  denom ←
      ok_or (checked_add u128_max (from_u64 state.available_amount) accrued.borrowed_amount_wads)
        (math_error "utilization denom")
  if denom == 0 then ok 0 else wad_div accrued.borrowed_amount_wads denom)

-- The three segments of the rate curve, by the utilization.
unfoldable pub low_segment : ⦃u : Uint⦄ → SaveState → ℕ → Outcome ℕ
low_segment state utilization =
    let optimal_util = from_percent state.optimal_utilization_rate in
    let min_rate = from_percent state.min_borrow_rate in
    let optimal_rate = from_percent state.optimal_borrow_rate in
    if optimal_util == 0 then ok min_rate else (do
      normalized ← wad_div utilization optimal_util
      segment ← wad_mul normalized (saturating_sub optimal_rate min_rate)
      ok (saturating_add u128_max min_rate segment))

unfoldable pub middle_segment : ⦃u : Uint⦄ → SaveState → ℕ → Outcome ℕ
middle_segment state utilization =
    let optimal_util = from_percent state.optimal_utilization_rate in
    let span = saturating_sub (from_percent state.max_utilization_rate) optimal_util in
    let optimal_rate = from_percent state.optimal_borrow_rate in
    let max_rate = from_percent state.max_borrow_rate in
    if span == 0 then ok optimal_rate else (do
      normalized ← wad_div (saturating_sub utilization optimal_util) span
      segment ← wad_mul normalized (saturating_sub max_rate optimal_rate)
      ok (saturating_add u128_max optimal_rate segment))

-- `denom_pct as u8` is exact, since `denom_pct` is at most 100.
unfoldable pub high_segment : ⦃u : Uint⦄ → SaveState → ℕ → Outcome ℕ
high_segment state utilization =
    let max_util = from_percent state.max_utilization_rate in
    let max_rate = from_percent state.max_borrow_rate in
    let denom_pct = saturating_sub 100 state.max_utilization_rate in
    if denom_pct == 0 then ok max_rate else (do
      normalized ← wad_div (saturating_sub utilization max_util) (from_percent denom_pct)
      let super_max_rate = saturating_mul u128_max state.super_max_borrow_rate (wad / 100)
      segment ← wad_mul normalized (saturating_sub super_max_rate max_rate)
      ok (saturating_add u128_max max_rate segment))

unfoldable pub current_borrow_rate : ⦃u : Uint⦄ → SaveState → Outcome ℕ
current_borrow_rate state = do
  utilization ← utilization_rate state (record {
    borrowed_amount_wads = state.borrowed_amount_wads;
    accumulated_protocol_fees_wads = state.accumulated_protocol_fees_wads;
  })
  if leb utilization (from_percent state.optimal_utilization_rate)
      then low_segment state utilization
      else (if leb utilization (from_percent state.max_utilization_rate)
          then middle_segment state utilization
          else high_segment state utilization)

unfoldable pub accrue_interest : ⦃u : Uint⦄ → SaveState → ℕ → Outcome AccruedSave
accrue_interest state current_slot =
    let slots_elapsed = saturating_sub current_slot state.last_update_slot in
    if slots_elapsed == 0 || state.borrowed_amount_wads == 0
    then ok (record {
      borrowed_amount_wads = state.borrowed_amount_wads;
      accumulated_protocol_fees_wads = state.accumulated_protocol_fees_wads;
    })
    else (do
      borrow_rate ← current_borrow_rate state
      let slot_interest_rate = borrow_rate / slots_per_year
      let one_plus_slot_rate = saturating_add u128_max wad slot_interest_rate
      compounded ← wad_pow one_plus_slot_rate slots_elapsed
      new_borrowed ← wad_mul state.borrowed_amount_wads compounded
      let net_new_debt = saturating_sub new_borrowed state.borrowed_amount_wads
      protocol_share ← wad_mul net_new_debt (from_percent state.protocol_take_rate)
      ok (record {
        borrowed_amount_wads = new_borrowed;
        accumulated_protocol_fees_wads =
            saturating_add u128_max state.accumulated_protocol_fees_wads protocol_share;
      }))

-- The new state; on an error the old one stays.
unfoldable pub pre_accrue : ⦃u : Uint⦄ → SaveState → ℕ → Outcome SaveState
pre_accrue state current_slot = do
  accrued ← accrue_interest state current_slot
  ok (record state {
    borrowed_amount_wads = accrued.borrowed_amount_wads;
    accumulated_protocol_fees_wads = accrued.accumulated_protocol_fees_wads;
    last_update_slot = current_slot;
  })

unfoldable pub total_supply_wad : SaveState → AccruedSave → Outcome ℕ
total_supply_wad state accrued =
    ok_or
      (and_then
        (checked_add u128_max (from_u64 state.available_amount) accrued.borrowed_amount_wads)
        (λ x. checked_sub x accrued.accumulated_protocol_fees_wads))
      (math_error "total_supply_wad")

unfoldable pub exchange_rate : ⦃u : Uint⦄ → ℕ → ℕ → Outcome ℕ
exchange_rate collateral_supply total_supply_w =
    if total_supply_w == 0 || collateral_supply == 0
    then ok initial_collateral_rate
    else wad_div (from_u64 collateral_supply) total_supply_w

unfoldable pub liquidity_to_collateral : ⦃u : Uint⦄ → ℕ → ℕ → Outcome ℕ
liquidity_to_collateral liquidity rate_w = do
  product ← wad_mul (from_u64 liquidity) rate_w
  ok (to_floor_u64 product)

unfoldable pub collateral_to_liquidity : ⦃u : Uint⦄ → ℕ → ℕ → Outcome ℕ
collateral_to_liquidity collateral rate_w = do
  fail_if (rate_w == 0) (math_error "rate_w=0")
  quot ← wad_div (from_u64 collateral) rate_w
  ok (to_floor_u64 quot)

unfoldable pub quote_deposit :
    ⦃u : Uint⦄ → SaveState → ℕ → WrapperVault → GlobalConfig → ℕ → Outcome ℕ
quote_deposit state current_slot wv gc amount = do
  fail_if (amount == 0) (math_error "zero amount")
  accrued ← accrue_interest state current_slot
  total_supply_w ← total_supply_wad state accrued
  exchange_rate_w ← exchange_rate state.collateral_mint_total_supply total_supply_w
  net_amount ← net_of_fees wv gc amount
  fail_if (net_amount == 0) (math_error "net amount zero")
  post_supply_w ←
      ok_or (checked_add u128_max (from_u64 net_amount) total_supply_w) (math_error "post supply")
  fail_if (ltb state.deposit_limit (to_floor_u64 post_supply_w))
      (math_error "deposit limit exceeded")
  collateral_received ← liquidity_to_collateral net_amount exchange_rate_w
  fail_if (collateral_received == 0) (math_error "collateral zero")
  wrapper_to_mint ←
      mint_share "save: ctokens out of sync" "mint mul" "mint div" wv collateral_received net_amount
  fail_if (wrapper_to_mint == 0) (math_error "mint zero")
  _ ← check_mint wv collateral_received wrapper_to_mint
  ok wrapper_to_mint

unfoldable pub quote_withdraw : ⦃u : Uint⦄ → SaveState → ℕ → WrapperVault → ℕ → Outcome ℕ
quote_withdraw state current_slot wv amount = do
  fail_if (amount == 0) (math_error "zero amount")
  fail_if (ltb wv.wrapper_supply amount) (math_error "burn exceeds supply")
  fail_if (wv.intermediate_held == 0) (math_error "save: no cTokens")
  accrued ← accrue_interest state current_slot
  total_supply_w ← total_supply_wad state accrued
  exchange_rate_w ← exchange_rate state.collateral_mint_total_supply total_supply_w
  ctokens_to_redeem ← redeem_share wv amount
  fail_if (ctokens_to_redeem == 0) (math_error "ctoken zero")
  underlying_received ← collateral_to_liquidity ctokens_to_redeem exchange_rate_w
  fail_if (underlying_received == 0) (math_error "underlying zero")
  fail_if (ltb state.available_amount underlying_received) (math_error "insufficient liquidity")
  _ ← check_burn wv ctokens_to_redeem amount
  ok underlying_received
