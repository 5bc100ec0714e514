-- ===== src/Kvault/Math.antt =====
-- `src/your_venue/kvault/math.rs`: the two quotes.
mod Tests
pub mod Deposit
pub mod Withdraw
use overpass_titan_venue.Base.{
  ℕ, zero, suc, ◌+◌, ◌-◌, ◌/◌, ◌%◌, min, max, List, [], ◌∷◌, Option, none, some, Outcome, ok, ◌>>=◌,
  ◌>>◌, ok_or, or_panic, fail_if, math_error, ltb, leb, ◌==◌, ◌&&◌, if◌then◌else◌, checked_add,
  checked_sub, checked_mul, checked_div, saturating_sub, u64_max, u128_max,
}
use overpass_titan_venue.Uint.{Uint}
use overpass_titan_venue.Int.{ℤ}
use overpass_titan_venue.Common.Checked.{
  full_bps, mul_bps, u128_to_u64, require_no_value_per_share_loss,
}
use overpass_titan_venue.Common.State.{WrapperVault, GlobalConfig}
use overpass_titan_venue.Shares.{and_then}
use overpass_titan_venue.Klend.Fixed.{Fixed}
use overpass_titan_venue.Klend.Math.{
  fraction_collateral_to_liquidity, fraction_liquidity_to_collateral_ceil,
}
use overpass_titan_venue.Kvault.State.{
  KvaultState, ActiveAllocation, effective_penalty_bps, effective_penalty_lamports,
}
use overpass_titan_venue.Kvault.Holdings.{
  fraction_full_mul_int_ratio, find_reserve, reserve_rate, current_aum, get_shares_to_mint,
}

-- How many allocations have a weight and a cap: the `count` of the `filter`.
pub num_reserves : List ActiveAllocation → ℕ
num_reserves [] = 0
num_reserves (a ∷ rest) =
    (if ltb 0 a.target_allocation_weight && ltb 0 a.token_allocation_cap then 1 else 0)
    + num_reserves rest

unfoldable pub max_user_tokens : KvaultState → ℕ → Outcome ℕ
unfolding num_reserves
max_user_tokens state net_amount = do
  crank_funds ←
      ok_or
        (checked_mul u64_max (num_reserves state.active_allocations)
          state.crank_fund_fee_per_reserve)
        (math_error "crank funds")
  user_tokens ← ok_or (checked_sub net_amount crank_funds) (math_error "max_user_tokens")
  fail_if (ltb user_tokens state.min_deposit_amount) (math_error "below min deposit")
  fail_if (ltb state.cached_max_deposit user_tokens) (math_error "deposit exceeds reserve capacity")
  ok user_tokens

unfoldable pub kvault_mint : KvaultState → WrapperVault → ℕ → ℕ → Outcome ℕ
kvault_mint state wv kvault_shares net_amount =
    if wv.wrapper_supply == 0 then ok net_amount else (do
      fail_if (state.position_kvault_shares == 0) (math_error "intermediate=0")
      quot ←
          ok_or
            (and_then (checked_mul u128_max kvault_shares wv.wrapper_supply)
              (λ x. checked_div x state.position_kvault_shares))
            (math_error "wrap calc")
      u128_to_u64 quot)

unfoldable pub quote_deposit :
    ⦃u : Uint⦄ → ⦃f : Fixed⦄ → KvaultState → ℕ → ℤ → WrapperVault → GlobalConfig → ℕ → Outcome ℕ
unfolding max_user_tokens kvault_mint
quote_deposit state current_slot unix_timestamp wv gc amount = do
  fail_if (amount == 0) (math_error "zero amount")
  protocol_fee ← mul_bps amount gc.protocol_deposit_fee_bps
  creator_fee ← mul_bps amount wv.creator_deposit_fee_bps
  total_fee ← ok_or (checked_add u64_max protocol_fee creator_fee) (math_error "fee sum")
  net_amount ← ok_or (checked_sub amount total_fee) (math_error "net amount")
  fail_if (net_amount == 0) (math_error "net zero")
  user_tokens ← max_user_tokens state net_amount
  aum ← current_aum state current_slot unix_timestamp
  kvault_shares_to_mint ← get_shares_to_mint aum user_tokens state.shares_issued
  fail_if (kvault_shares_to_mint == 0) (math_error "shares to mint zero")
  wrapper_to_mint ← kvault_mint state wv kvault_shares_to_mint net_amount
  fail_if (wrapper_to_mint == 0) (math_error "mint zero")
  new_total_kvault_shares ←
      ok_or (checked_add u128_max wv.intermediate_held kvault_shares_to_mint)
        (math_error "new shares total")
  new_wrapper_supply ←
      ok_or (checked_add u64_max wv.wrapper_supply wrapper_to_mint) (math_error "new supply")
  _ ←
      require_no_value_per_share_loss state.position_kvault_shares wv.wrapper_supply
        new_total_kvault_shares new_wrapper_supply
  ok wrapper_to_mint

-- `max_by_key` on the allocated units, which keeps the last of equal ones.
pub max_by_allocation : List ActiveAllocation → Option ActiveAllocation
max_by_allocation [] = none
max_by_allocation (a ∷ rest) = elim (max_by_allocation rest) [
  | none ↦ some a
  | some b ↦ if leb a.ctoken_allocation b.ctoken_allocation then some b else some a
]

-- What the units of a burn are worth, before the penalty.
unfoldable pub redeem_value : ⦃u : Uint⦄ → ⦃f : Fixed⦄ → KvaultState → ℕ → ℕ → Outcome ℕ
redeem_value ⦃u⦄ ⦃f⦄ state aum shares_to_redeem =
    if shares_to_redeem == state.shares_issued
    then (do
      floor ← or_panic (f.floor aum)
      floored ← or_panic (f.to_num u128_max floor)
      u128_to_u64 floored)
    else (do
      full ← fraction_full_mul_int_ratio aum shares_to_redeem state.shares_issued
      floor ← or_panic (f.floor full)
      floored ← or_panic (f.to_num u128_max floor)
      u128_to_u64 floored)

-- The penalty in units of liquidity is the larger of the two, and less than the whole.
unfoldable pub less_penalty : KvaultState → ℕ → Outcome ℕ
less_penalty state total_with_penalty = do
  bps_prod ←
      ok_or (checked_mul u128_max total_with_penalty (effective_penalty_bps state))
        (math_error "penalty bps mul")
  penalty_from_bps_ceil ← u128_to_u64 ((bps_prod + (full_bps - 1)) / full_bps)
  let penalty = max penalty_from_bps_ceil (effective_penalty_lamports state)
  fail_if (leb total_with_penalty penalty) (math_error "penalty >= total")
  total_for_user ← ok_or (checked_sub total_with_penalty penalty) (math_error "penalty sub")
  fail_if (total_for_user == 0) (math_error "user total zero")
  ok total_for_user

-- What is sent from a reserve at its rate, of at most `to_disinvest`, beside what is available.
unfoldable pub disinvest : ⦃u : Uint⦄ → ⦃f : Fixed⦄ → ActiveAllocation → ℕ → ℕ → ℕ → ℕ → Outcome ℕ
disinvest ⦃u⦄ ⦃f⦄ primary cs ts available_to_send to_disinvest = do
  in_reserve_liq_f ← fraction_collateral_to_liquidity primary.ctoken_allocation cs ts
  wanted_f ← or_panic (f.from_num to_disinvest)
  let send_f = min in_reserve_liq_f wanted_f
  if send_f == 0 then ok available_to_send else (do
    send_floor_f ← or_panic (f.floor send_f)
    send_floor ← or_panic (f.to_num u64_max send_floor_f)
    needed_ctokens ← fraction_liquidity_to_collateral_ceil send_floor cs ts
    let disinvest_ctokens = min needed_ctokens primary.ctoken_allocation
    disinvest_liq_f ← fraction_collateral_to_liquidity disinvest_ctokens cs ts
    let rounding_err : ℕ =
        if ltb 0 (f.frac disinvest_liq_f) && ltb (f.frac send_f) (f.frac disinvest_liq_f)
        then 1
        else 0
    let actual = saturating_sub send_floor rounding_err
    ok_or (checked_add u64_max available_to_send actual) (math_error "disinvest add"))

unfoldable pub final_for_user : ⦃u : Uint⦄ → ⦃f : Fixed⦄ → KvaultState → ℕ → ℤ → ℕ → Outcome ℕ
unfolding max_by_allocation disinvest
final_for_user state current_slot unix_timestamp total_for_user =
    let available_to_send = min state.token_available total_for_user in
    if leb total_for_user available_to_send then ok total_for_user else (do
      to_disinvest ←
          ok_or (checked_sub total_for_user available_to_send) (math_error "disinvest sub")
      primary ←
          ok_or (max_by_allocation state.active_allocations) (math_error "no active allocations")
      reserve ←
          ok_or (find_reserve primary.reserve state.cached_reserves)
            (math_error "primary reserve not cached")
      pair ← reserve_rate reserve current_slot unix_timestamp
      disinvest primary pair.collateral pair.supply available_to_send to_disinvest)

unfoldable pub redeem_units : KvaultState → WrapperVault → ℕ → Outcome ℕ
redeem_units state wv amount = do
  quot ←
      ok_or
        (and_then (checked_mul u128_max amount state.position_kvault_shares)
          (λ x. checked_div x wv.wrapper_supply))
        (math_error "redeem calc")
  u128_to_u64 quot

unfoldable pub quote_withdraw :
    ⦃u : Uint⦄ → ⦃f : Fixed⦄ → KvaultState → ℕ → ℤ → WrapperVault → ℕ → Outcome ℕ
unfolding redeem_units redeem_value less_penalty final_for_user
quote_withdraw state current_slot unix_timestamp wv amount = do
  fail_if (amount == 0) (math_error "zero amount")
  fail_if (ltb wv.wrapper_supply amount) (math_error "burn exceeds supply")
  fail_if (state.position_kvault_shares == 0) (math_error "intermediate=0")
  shares_to_redeem ← redeem_units state wv amount
  fail_if (shares_to_redeem == 0) (math_error "redeem zero")
  aum ← current_aum state current_slot unix_timestamp
  fail_if (aum == 0) (math_error "aum=0")
  total_with_penalty ← redeem_value state aum shares_to_redeem
  fail_if (total_with_penalty == 0) (math_error "total zero")
  total_for_user ← less_penalty state total_with_penalty
  final ← final_for_user state current_slot unix_timestamp total_for_user
  fail_if (final == 0) (math_error "final zero")
  fail_if (leb final state.min_withdraw_amount) (math_error "below min withdraw")
  new_total_kvault_shares ←
      ok_or (checked_sub wv.intermediate_held shares_to_redeem) (math_error "new shares total")
  new_wrapper_supply ← ok_or (checked_sub wv.wrapper_supply amount) (math_error "new supply")
  _ ←
      require_no_value_per_share_loss state.position_kvault_shares wv.wrapper_supply
        new_total_kvault_shares new_wrapper_supply
  ok final
