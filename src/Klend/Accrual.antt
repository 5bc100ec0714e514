-- ===== src/Klend/Accrual.antt =====
-- `src/your_venue/klend/math.rs`, first half: the supply of a reserve, the curve of the borrow
-- rate and the accrual of interest. Fractions are bits; `panic` is an operator that overflows.
use overpass_titan_venue.Base.{
  ℕ, zero, suc, Bool, ◌+◌, ◌*◌, ◌-◌, List, Outcome, ok, err, ◌>>=◌, or_panic, math_error, ltb, ◌==◌,
  ◌&&◌, if◌then◌else◌, take, drop, checked_add, checked_sub, saturating_sub, u128_max,
}
use overpass_titan_venue.Common.Bytes.{from_le_bytes}
use overpass_titan_venue.Common.Checked.{full_bps}
use overpass_titan_venue.Klend.Fixed.{Fixed}
use overpass_titan_venue.Klend.Fraction.{
  approximate_compounded_interest, bps_to_fraction, percent_to_fraction,
}
use overpass_titan_venue.Int.{ℤ, max_zero}
use overpass_titan_venue.Klend.State.{KlendState}

abbrev points_in_curve : ℕ
points_in_curve = 11

abbrev point_size : ℕ
point_size = 8

abbrev slots_per_year : ℕ
slots_per_year = 63072000

abbrev seconds_per_year : ℕ
seconds_per_year = 31536000

abbrev u32_max : ℕ
u32_max = 4294967295

pub record AccruedKlend : Type 0 where
  pub borrowed_amount_sf : ℕ
  pub accumulated_protocol_fees_sf : ℕ
  pub pending_referrer_fees_sf : ℕ
  pub accumulated_referrer_fees_sf : ℕ

pub record Point : Type 0 where
  pub util : ℕ
  pub rate : ℕ

-- The curve has 88 bytes, so that its points are in range.
unfoldable pub point : List ℕ → ℕ → Point
point curve i = record {
  util = from_le_bytes (take 4 (drop (i * point_size) curve));
  rate = from_le_bytes (take 4 (drop (i * point_size + 4) curve));
}

unfoldable pub interpolate : ⦃f : Fixed⦄ → ℕ → Point → Point → Outcome ℕ
interpolate ⦃f⦄ utilization prev cur = do
  let slope_nom = saturating_sub cur.rate prev.rate
  slope_denom ← or_panic (checked_sub cur.util prev.util)
  start_util_f ← bps_to_fraction prev.util
  coef ← or_panic (f.sub utilization start_util_f)
  nom ← or_panic (f.mul_int coef slope_nom)
  base_rate ← or_panic (f.div_int nom slope_denom)
  offset ← bps_to_fraction prev.rate
  or_panic (f.add base_rate offset)

-- The loop over the points, with how many are left and the index of the next.
unfoldable pub find_segment : ⦃f : Fixed⦄ → ℕ → ℕ → List ℕ → ℕ → ℕ → Point → Outcome ℕ
find_segment zero i curve utilization util_bps prev = bps_to_fraction prev.rate
find_segment (suc n) i curve utilization util_bps prev =
    let cur = point curve i in
    let rest = find_segment n (suc i) curve utilization util_bps cur in
    if util_bps == cur.util
    then bps_to_fraction cur.rate
    else if ltb prev.util util_bps && ltb util_bps cur.util
    then interpolate utilization prev cur
    else rest

abbrev min : ℕ → ℕ → ℕ
min a b = if ltb b a then b else a

unfoldable pub lookup_borrow_rate : ⦃f : Fixed⦄ → List ℕ → ℕ → Outcome ℕ
lookup_borrow_rate ⦃f⦄ curve raw_utilization = do
  let utilization = if ltb f.one raw_utilization then f.one else raw_utilization
  full ← or_panic (f.from_num full_bps)
  scaled ← or_panic (f.mul utilization full)
  rounded ← or_panic (f.round scaled)
  util_bps_u32 ← or_panic (f.to_num u32_max rounded)
  let util_bps = min util_bps_u32 full_bps
  let first = point curve 0
  if util_bps == first.util
      then bps_to_fraction first.rate
      else find_segment (points_in_curve - 1) 1 curve utilization util_bps first

unfoldable pub total_supply_core : ⦃f : Fixed⦄ → ℕ → ℕ → ℕ → ℕ → ℕ → Outcome ℕ
total_supply_core ⦃f⦄ available borrowed_sf protocol_fees_sf referrer_fees_sf pending_fees_sf = do
  available_f ← or_panic (f.from_num available)
  gross ← or_panic (f.add available_f borrowed_sf)
  less_protocol ← or_panic (f.sub gross protocol_fees_sf)
  less_referrer ← or_panic (f.sub less_protocol referrer_fees_sf)
  or_panic (f.sub less_referrer pending_fees_sf)

unfoldable pub total_supply_fraction_pre : ⦃f : Fixed⦄ → KlendState → Outcome ℕ
unfolding total_supply_core
total_supply_fraction_pre state =
    total_supply_core state.total_available_amount state.borrowed_amount_sf
      state.accumulated_protocol_fees_sf state.accumulated_referrer_fees_sf
      state.pending_referrer_fees_sf

unfoldable pub total_supply_fraction : ⦃f : Fixed⦄ → KlendState → AccruedKlend → Outcome ℕ
unfolding total_supply_core
total_supply_fraction state accrued =
    total_supply_core state.total_available_amount accrued.borrowed_amount_sf
      accrued.accumulated_protocol_fees_sf accrued.accumulated_referrer_fees_sf
      accrued.pending_referrer_fees_sf

unfoldable pub utilization_rate : ⦃f : Fixed⦄ → ℕ → ℕ → Outcome ℕ
utilization_rate ⦃f⦄ borrowed_sf total_supply =
    if total_supply == 0 then ok 0 else or_panic (f.div borrowed_sf total_supply)

pub record AccrualDuration : Type 0 where
  pub elapsed_units : ℕ
  pub units_per_year : ℕ

-- `AccrualDuration::since`.
unfoldable pub since : ℕ → ℕ → ℕ → ℕ → ℤ → Outcome AccrualDuration
since zero last_update_slot last_update_timestamp current_slot unix_timestamp = ok (record {
  elapsed_units = saturating_sub current_slot last_update_slot;
  units_per_year = slots_per_year;
})
since (suc zero) last_update_slot last_update_timestamp current_slot unix_timestamp =
    let now = max_zero unix_timestamp in
    ok (record {
      elapsed_units =
          if last_update_timestamp == 0 then 0 else saturating_sub now last_update_timestamp;
      units_per_year = seconds_per_year;
    })
since (suc (suc basis)) last_update_slot last_update_timestamp current_slot unix_timestamp =
    err (math_error "unknown interest rate basis")

unfoldable pub is_zero : AccrualDuration → Bool
is_zero duration = duration.elapsed_units == 0

-- The branch of `accrue_interest` after time has passed.
unfoldable pub accrue_elapsed : ⦃f : Fixed⦄ → KlendState → AccrualDuration → Outcome AccruedKlend
accrue_elapsed ⦃f⦄ state duration = do
  pre_total_supply ← total_supply_fraction_pre state
  utilization ← utilization_rate state.borrowed_amount_sf pre_total_supply
  current_borrow_rate ← lookup_borrow_rate state.borrow_rate_curve utilization
  host_fixed_interest_rate ← bps_to_fraction state.host_fixed_interest_rate_bps
  protocol_take_rate ← percent_to_fraction state.protocol_take_rate_pct
  let referral_rate : ℕ = 0
  full_rate ← or_panic (f.add current_borrow_rate host_fixed_interest_rate)
  compounded_interest_rate ←
      approximate_compounded_interest full_rate duration.elapsed_units duration.units_per_year
  compounded_fixed_rate ←
      approximate_compounded_interest host_fixed_interest_rate duration.elapsed_units
        duration.units_per_year
  let previous_debt_f = state.borrowed_amount_sf
  let acc_protocol_fees_f = state.accumulated_protocol_fees_sf
  new_debt_f ← or_panic (f.mul previous_debt_f compounded_interest_rate)
  fixed_debt_f ← or_panic (f.mul previous_debt_f compounded_fixed_rate)
  fixed_host_fee ← or_panic (f.sub fixed_debt_f previous_debt_f)
  new_interest_f ← or_panic (f.sub new_debt_f previous_debt_f)
  net_new_variable_debt_f ← or_panic (f.sub new_interest_f fixed_host_fee)
  variable_protocol_fee_f ← or_panic (f.mul net_new_variable_debt_f protocol_take_rate)
  absolute_referral_rate ← or_panic (f.mul protocol_take_rate referral_rate)
  max_referrers_fees_f ← or_panic (f.mul net_new_variable_debt_f absolute_referral_rate)
  with_host_fee ← or_panic (f.add acc_protocol_fees_f fixed_host_fee)
  with_variable_fee ← or_panic (f.add with_host_fee variable_protocol_fee_f)
  new_acc_protocol_fees_f ← or_panic (f.sub with_variable_fee max_referrers_fees_f)
  pending ← or_panic (checked_add u128_max state.pending_referrer_fees_sf max_referrers_fees_f)
  ok (record {
    borrowed_amount_sf = new_debt_f;
    accumulated_protocol_fees_sf = new_acc_protocol_fees_f;
    pending_referrer_fees_sf = pending;
    accumulated_referrer_fees_sf = state.accumulated_referrer_fees_sf;
  })

unfoldable pub accrue_interest : ⦃f : Fixed⦄ → KlendState → ℕ → ℤ → Outcome AccruedKlend
unfolding is_zero
accrue_interest state current_slot unix_timestamp = do
  duration ←
      since state.interest_rate_basis state.last_update_slot state.last_update_timestamp
        current_slot unix_timestamp
  if is_zero duration
      then ok (record {
        borrowed_amount_sf = state.borrowed_amount_sf;
        accumulated_protocol_fees_sf = state.accumulated_protocol_fees_sf;
        pending_referrer_fees_sf = state.pending_referrer_fees_sf;
        accumulated_referrer_fees_sf = state.accumulated_referrer_fees_sf;
      })
      else accrue_elapsed state duration

-- The new state; on an error the old one stays.
unfoldable pub pre_accrue : ⦃f : Fixed⦄ → KlendState → ℕ → ℤ → Outcome KlendState
pre_accrue state current_slot unix_timestamp = do
  accrued ← accrue_interest state current_slot unix_timestamp
  ok (record state {
    borrowed_amount_sf = accrued.borrowed_amount_sf;
    accumulated_protocol_fees_sf = accrued.accumulated_protocol_fees_sf;
    pending_referrer_fees_sf = accrued.pending_referrer_fees_sf;
    accumulated_referrer_fees_sf = accrued.accumulated_referrer_fees_sf;
    last_update_slot = current_slot;
    last_update_timestamp = max_zero unix_timestamp;
  })
