-- ===== src/Kvault/Holdings.antt =====
-- `src/your_venue/kvault/math.rs`: what a vault holds, its fees, and the shares of an amount.
-- Fractions are bits; `panic` is an operator that overflows.
use overpass_titan_venue.Base.{
  ℕ, List, [], ◌∷◌, Option, none, some, Pubkey, Outcome, ok, ◌>>=◌, ◌>>◌, ok_or, or_panic, fail_if,
  math_error, ltb, ◌==◌, ◌||◌, if◌then◌else◌, bytes_eq, saturating_sub, u128_max,
}
use overpass_titan_venue.Uint.{Uint}
use overpass_titan_venue.Int.{ℤ, max_zero}
use overpass_titan_venue.Common.Checked.{full_bps, u128_to_u64}
use overpass_titan_venue.Klend.Fixed.{Fixed}
use overpass_titan_venue.Klend.State.{KlendState}
use overpass_titan_venue.Klend.Accrual.{accrue_interest, total_supply_fraction}
use overpass_titan_venue.Klend.Math.{
  ExchangeRate, exchange_rate_pair, fraction_collateral_to_liquidity,
}
use overpass_titan_venue.Kvault.State.{KvaultState, ActiveAllocation, prev_aum, pending_fees}

abbrev seconds_per_year : ℕ
seconds_per_year = 31_556_926

unfoldable pub bps_to_fraction : ⦃f : Fixed⦄ → ℕ → Outcome ℕ
bps_to_fraction ⦃f⦄ bps = do
  num ← or_panic (f.from_num bps)
  full ← or_panic (f.from_num full_bps)
  or_panic (f.div num full)

unfoldable pub fraction_full_mul_int_ratio : ⦃u : Uint⦄ → ℕ → ℕ → ℕ → Outcome ℕ
fraction_full_mul_int_ratio ⦃u⦄ fraction mult div = do
  fail_if (div == 0) (math_error "div=0")
  lhs ← ok_or (u.mul? fraction mult) (math_error "ratio mul")
  quot ← or_panic (u.div lhs div)
  ok_or (u.to_u128 quot) (math_error "ratio convert")

-- The entry of a reserve among the cached ones.
unfoldable pub find_reserve : Pubkey → List (Pubkey × KlendState) → Option KlendState
find_reserve key [] = none
find_reserve key ((k, r) ∷ rest) = if bytes_eq k key then some r else find_reserve key rest

-- The accrued rate between the units of a reserve and its liquidity.
unfoldable pub reserve_rate : ⦃f : Fixed⦄ → KlendState → ℕ → ℤ → Outcome ExchangeRate
reserve_rate reserve current_slot unix_timestamp = do
  accrued ← accrue_interest reserve current_slot unix_timestamp
  total_supply ← total_supply_fraction reserve accrued
  ok (exchange_rate_pair reserve.collateral_mint_total_supply total_supply)

unfoldable pub invested_for_allocation :
    ⦃u : Uint⦄ → ⦃f : Fixed⦄ → KvaultState → ℕ → ℤ → ActiveAllocation → Outcome ℕ
unfolding reserve_rate find_reserve
invested_for_allocation state current_slot unix_timestamp alloc = do
  reserve ←
      ok_or (find_reserve alloc.reserve state.cached_reserves) (math_error "reserve not cached")
  pair ← reserve_rate reserve current_slot unix_timestamp
  fraction_collateral_to_liquidity alloc.ctoken_allocation pair.collateral pair.supply

-- The loop over the allocations, with the total so far.
unfoldable pub invested_from :
    ⦃u : Uint⦄ → ⦃f : Fixed⦄ → KvaultState → ℕ → ℤ → ℕ → List ActiveAllocation → Outcome ℕ
unfolding invested_for_allocation
invested_from state current_slot unix_timestamp total [] = ok total
invested_from ⦃u⦄ ⦃f⦄ state current_slot unix_timestamp total (alloc ∷ allocs) = do
  invested ← invested_for_allocation state current_slot unix_timestamp alloc
  total' ← or_panic (f.add total invested)
  invested_from state current_slot unix_timestamp total' allocs

unfoldable pub invested_total : ⦃u : Uint⦄ → ⦃f : Fixed⦄ → KvaultState → ℕ → ℤ → Outcome ℕ
unfolding invested_from
invested_total state current_slot unix_timestamp =
    invested_from state current_slot unix_timestamp 0 state.active_allocations

unfoldable pub management_charge : ⦃f : Fixed⦄ → KvaultState → ℕ → Outcome ℕ
unfolding bps_to_fraction
management_charge ⦃f⦄ state seconds_passed =
    if seconds_passed == 0 || state.management_fee_bps == 0 then ok 0 else (do
      mgmt_fee_yearly ← bps_to_fraction state.management_fee_bps
      seconds ← or_panic (f.from_num seconds_passed)
      scaled ← or_panic (f.mul mgmt_fee_yearly seconds)
      year ← or_panic (f.from_num seconds_per_year)
      mgmt_fee ← or_panic (f.div scaled year)
      or_panic (f.mul (prev_aum state) mgmt_fee))

unfoldable pub performance_charge : ⦃f : Fixed⦄ → KvaultState → ℕ → Outcome ℕ
unfolding bps_to_fraction
performance_charge ⦃f⦄ state new_aum_preview = do
  earned_interest ←
      (if ltb (prev_aum state) new_aum_preview
        then or_panic (f.sub new_aum_preview (prev_aum state))
        else ok 0)
  if state.performance_fee_bps == 0 then ok 0 else (do
    fee ← bps_to_fraction state.performance_fee_bps
    or_panic (f.mul fee earned_interest))

unfoldable pub charged_pending_fees : ⦃f : Fixed⦄ → KvaultState → ℤ → ℕ → Outcome ℕ
unfolding management_charge performance_charge
charged_pending_fees ⦃f⦄ state unix_timestamp invested =
    if state.last_fee_charge_timestamp == 0 then ok (pending_fees state) else (do
      let now = max_zero unix_timestamp
      let seconds_passed = saturating_sub now state.last_fee_charge_timestamp
      avail ← or_panic (f.from_num state.token_available)
      holdings ← or_panic (f.add avail invested)
      new_aum_preview ←
          (if ltb holdings (pending_fees state)
            then ok 0
            else or_panic (f.sub holdings (pending_fees state)))
      mgmt_charge ← management_charge state seconds_passed
      perf_charge ← performance_charge state new_aum_preview
      new_fees ← or_panic (f.add mgmt_charge perf_charge)
      or_panic (
          f.add (pending_fees state)
            (if ltb new_aum_preview new_fees then new_aum_preview else new_fees)))

unfoldable pub compute_current_aum : ⦃u : Uint⦄ → ⦃f : Fixed⦄ → KvaultState → ℕ → ℤ → Outcome ℕ
unfolding invested_total charged_pending_fees
compute_current_aum ⦃u⦄ ⦃f⦄ state current_slot unix_timestamp = do
  invested ← invested_total state current_slot unix_timestamp
  available ← or_panic (f.from_num state.token_available)
  holdings_total ← or_panic (f.add available invested)
  pending_fees_after_charge ← charged_pending_fees state unix_timestamp invested
  fail_if (ltb holdings_total pending_fees_after_charge) (math_error "aum below fees")
  or_panic (f.sub holdings_total pending_fees_after_charge)

unfoldable pub current_aum : ⦃u : Uint⦄ → ⦃f : Fixed⦄ → KvaultState → ℕ → ℤ → Outcome ℕ
unfolding compute_current_aum
current_aum state current_slot unix_timestamp = elim state.cached_aum_sf [
  | some bits ↦ ok bits
  | none ↦ compute_current_aum state current_slot unix_timestamp
]

unfoldable pub get_shares_to_mint : ⦃u : Uint⦄ → ⦃f : Fixed⦄ → ℕ → ℕ → ℕ → Outcome ℕ
get_shares_to_mint ⦃u⦄ ⦃f⦄ aum user_amount shares_issued =
    if shares_issued == 0 then ok user_amount else (do
      fail_if (aum == 0) (math_error "aum=0 shares>0")
      ceil ← or_panic (f.ceil aum)
      aum_ceil ← or_panic (f.to_num u128_max ceil)
      aum_ceil_u64 ← u128_to_u64 aum_ceil
      fail_if (aum_ceil_u64 == 0) (math_error "aum_ceil=0")
      issued_f ← or_panic (f.from_num shares_issued)
      shares ← fraction_full_mul_int_ratio issued_f user_amount aum_ceil_u64
      floor ← or_panic (f.floor shares)
      floored ← or_panic (f.to_num u128_max floor)
      u128_to_u64 floored)
