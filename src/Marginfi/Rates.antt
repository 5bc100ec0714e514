-- ===== src/Marginfi/Rates.antt =====
-- `src/your_venue/marginfi/math.rs`: the interest rates of a bank and the accrual of its share
-- values. A signed fraction is its bits; `panic` is an operator that overflows.
use overpass_titan_venue.Base.{
  ℕ, Bool, List, [], ◌∷◌, Outcome, ok, err, ◌>>=◌, ◌>>◌, ok_or, or_panic, fail_if, math_error, not,
  ◌==◌, ◌||◌, if◌then◌else◌,
}
use overpass_titan_venue.Int.{ℤ, pos, int_leb, int_sub, int_min, int_max, int_eqb, max_zero}
use overpass_titan_venue.Shares.{and_then}
use overpass_titan_venue.Marginfi.Signed.{Signed}
use overpass_titan_venue.Marginfi.State.{
  MarginfiState, RatePoint, interest_curve_legacy, interest_curve_seven_point,
}

abbrev u32_max : ℕ
u32_max = 4294967295

unfoldable pub seconds_per_year : ⦃f : Signed⦄ → Outcome ℤ
seconds_per_year ⦃f⦄ = or_panic (f.from_num 31_536_000)

unfoldable pub get_asset_amount : ⦃f : Signed⦄ → MarginfiState → ℤ → Outcome ℤ
get_asset_amount ⦃f⦄ state shares =
    ok_or (f.checked_mul shares state.asset_share_value) (math_error "get_asset_amount")

unfoldable pub get_liability_amount : ⦃f : Signed⦄ → MarginfiState → ℤ → Outcome ℤ
get_liability_amount ⦃f⦄ state shares =
    ok_or (f.checked_mul shares state.liability_share_value) (math_error "get_liability_amount")

pub record InterestRateCalc : Type 0 where
  pub optimal_utilization_rate : ℤ
  pub plateau_interest_rate : ℤ
  pub max_interest_rate : ℤ
  pub insurance_fixed_fee : ℤ
  pub insurance_rate_fee : ℤ
  pub protocol_fixed_fee : ℤ
  pub protocol_rate_fee : ℤ
  pub program_fee_fixed : ℤ
  pub program_fee_rate : ℤ
  pub add_program_fees : Bool
  pub zero_util_rate : ℕ
  pub hundred_util_rate : ℕ
  pub points : List RatePoint
  pub curve_type : ℕ

unfoldable pub create_interest_rate_calculator : MarginfiState → InterestRateCalc
create_interest_rate_calculator state = record {
  optimal_utilization_rate = state.interest_rate_config.optimal_utilization_rate;
  plateau_interest_rate = state.interest_rate_config.plateau_interest_rate;
  max_interest_rate = state.interest_rate_config.max_interest_rate;
  insurance_fixed_fee = state.interest_rate_config.insurance_fee_fixed_apr;
  insurance_rate_fee = state.interest_rate_config.insurance_ir_fee;
  protocol_fixed_fee = state.interest_rate_config.protocol_fixed_fee_apr;
  protocol_rate_fee = state.interest_rate_config.protocol_ir_fee;
  program_fee_fixed = state.group_program_fee_fixed;
  program_fee_rate = state.group_program_fee_rate;
  add_program_fees = state.group_program_fees_enabled;
  zero_util_rate = state.interest_rate_config.zero_util_rate;
  hundred_util_rate = state.interest_rate_config.hundred_util_rate;
  points = state.interest_rate_config.points;
  curve_type = state.interest_rate_config.curve_type;
}

pub record Fees : Type 0 where
  pub insurance_fee_rate : ℤ
  pub insurance_fee_fixed : ℤ
  pub group_fee_rate : ℤ
  pub group_fee_fixed : ℤ
  pub protocol_fee_rate : ℤ
  pub protocol_fee_fixed : ℤ

unfoldable pub get_fees : InterestRateCalc → Fees
get_fees calc = record {
  insurance_fee_rate = calc.insurance_rate_fee;
  insurance_fee_fixed = calc.insurance_fixed_fee;
  group_fee_rate = calc.protocol_rate_fee;
  group_fee_fixed = calc.protocol_fixed_fee;
  protocol_fee_rate = if calc.add_program_fees then calc.program_fee_rate else pos 0;
  protocol_fee_fixed = if calc.add_program_fees then calc.program_fee_fixed else pos 0;
}

pub record ComputedInterestRates : Type 0 where
  pub base_rate_apr : ℤ
  pub lending_rate_apr : ℤ
  pub borrowing_rate_apr : ℤ
  pub group_fee_apr : ℤ
  pub insurance_fee_apr : ℤ
  pub protocol_fee_apr : ℤ

unfoldable pub interest_rate_curve : ⦃f : Signed⦄ → InterestRateCalc → ℤ → Outcome ℤ
interest_rate_curve ⦃f⦄ calc ur =
    let optimal_ur = calc.optimal_utilization_rate in
    let plateau_ir = calc.plateau_interest_rate in
    let max_ir = calc.max_interest_rate in
    if int_leb ur optimal_ur
    then ok_or (and_then (f.checked_div ur optimal_ur) (λ x. f.checked_mul x plateau_ir))
        (math_error "legacy curve <= optimal")
    else (do
      above ← or_panic (f.sub ur optimal_ur)
      span ← or_panic (f.sub f.one optimal_ur)
      ratio ← ok_or (f.checked_div above span) (math_error "legacy curve > optimal")
      rise ← or_panic (f.sub max_ir plateau_ir)
      ok_or (and_then (f.checked_mul ratio rise) (λ x. f.checked_add x plateau_ir))
          (math_error "legacy curve > optimal"))

unfoldable pub lerp : ⦃f : Signed⦄ → ℤ → ℤ → ℤ → ℤ → ℤ → Outcome ℤ
lerp ⦃f⦄ start_x start_y end_x end_y target_x = if int_leb end_x start_x then ok start_y else (do
  fail_if (not (int_leb start_x target_x)) (math_error "lerp target<start")
  fail_if (not (int_leb target_x end_x)) (math_error "lerp target>end")
  fail_if (not (int_leb start_y end_y)) (math_error "lerp end_y<start_y")
  delta_x ← or_panic (f.sub end_x start_x)
  if int_eqb delta_x (pos 0) then ok start_y else (do
    offset ← or_panic (f.sub target_x start_x)
    proportion ← or_panic (f.div offset delta_x)
    delta_y ← or_panic (f.sub end_y start_y)
    scaled_delta ← ok_or (f.checked_mul delta_y proportion) (math_error "lerp mul")
    or_panic (f.add start_y scaled_delta)))

unfoldable pub util_from_u32 : ⦃f : Signed⦄ → ℕ → Outcome ℤ
util_from_u32 ⦃f⦄ util = do
  num ← or_panic (f.from_num util)
  full ← or_panic (f.from_num u32_max)
  or_panic (f.div num full)

unfoldable pub rate_from_u32 : ⦃f : Signed⦄ → ℕ → Outcome ℤ
rate_from_u32 ⦃f⦄ rate = do
  num ← or_panic (f.from_num rate)
  full ← or_panic (f.from_num u32_max)
  ratio ← or_panic (f.div num full)
  ten ← or_panic (f.from_num 10)
  or_panic (f.mul ratio ten)

-- The loop over the points of the curve, from the previous one; points without a utilization are
-- filtered out.
unfoldable pub multipoint_from : ⦃f : Signed⦄ → ℤ → ℤ → List RatePoint → ℤ → ℤ → Outcome ℤ
unfolding lerp util_from_u32 rate_from_u32
multipoint_from ⦃f⦄ ur hundred_rate [] prev_util prev_rate =
    lerp prev_util prev_rate f.one hundred_rate ur
multipoint_from ur hundred_rate (point ∷ points) prev_util prev_rate =
    let skipped = multipoint_from ur hundred_rate points prev_util prev_rate in
    if point.util == 0 then skipped else (do
      point_util ← util_from_u32 point.util
      point_rate ← rate_from_u32 point.rate
      let next = multipoint_from ur hundred_rate points point_util point_rate
      if int_leb ur point_util then lerp prev_util prev_rate point_util point_rate ur else next)

unfoldable pub interest_rate_multipoint_curve : ⦃f : Signed⦄ → InterestRateCalc → ℤ → Outcome ℤ
unfolding multipoint_from rate_from_u32
interest_rate_multipoint_curve ⦃f⦄ calc raw_ur = do
  zero_rate ← rate_from_u32 calc.zero_util_rate
  hundred_rate ← rate_from_u32 calc.hundred_util_rate
  let ur = int_min (int_max raw_ur (pos 0)) f.one
  multipoint_from ur hundred_rate calc.points (pos 0) zero_rate

unfoldable pub calc_fee_rate : ⦃f : Signed⦄ → ℤ → ℤ → ℤ → Outcome ℤ
calc_fee_rate ⦃f⦄ base_rate rate_fees fixed_fees =
    if int_eqb rate_fees (pos 0)
    then ok fixed_fees
    else ok_or (and_then (f.checked_mul base_rate rate_fees) (λ x. f.checked_add x fixed_fees))
        (math_error "calc_fee_rate")

unfoldable pub base_rate : ⦃f : Signed⦄ → InterestRateCalc → ℤ → Outcome ℤ
unfolding interest_rate_curve interest_rate_multipoint_curve
base_rate calc utilization_ratio =
    if calc.curve_type == interest_curve_legacy
    then interest_rate_curve calc utilization_ratio
    else if calc.curve_type == interest_curve_seven_point
    then interest_rate_multipoint_curve calc utilization_ratio
    else err (math_error "unsupported curve type")

unfoldable pub calc_interest_rate :
    ⦃f : Signed⦄ → InterestRateCalc → ℤ → Outcome ComputedInterestRates
unfolding get_fees base_rate calc_fee_rate
calc_interest_rate ⦃f⦄ calc utilization_ratio = do
  let fees = get_fees calc
  fee_ir ←
      ok_or
        (and_then (f.checked_add fees.insurance_fee_rate fees.group_fee_rate)
          (λ x. f.checked_add x fees.protocol_fee_rate))
        (math_error "fee_ir")
  fee_fixed ←
      ok_or
        (and_then (f.checked_add fees.insurance_fee_fixed fees.group_fee_fixed)
          (λ x. f.checked_add x fees.protocol_fee_fixed))
        (math_error "fee_fixed")
  base_rate_apr ← base_rate calc utilization_ratio
  lending_rate_apr ←
      ok_or (f.checked_mul base_rate_apr utilization_ratio) (math_error "lending_rate_apr")
  one_plus ← ok_or (f.checked_add f.one fee_ir) (math_error "1+fee_ir")
  with_fee ← ok_or (f.checked_mul base_rate_apr one_plus) (math_error "borrow*1+fee_ir")
  borrowing_rate_apr ← ok_or (f.checked_add with_fee fee_fixed) (math_error "borrow+fee_fixed")
  group_fee_apr ← calc_fee_rate base_rate_apr fees.group_fee_rate fees.group_fee_fixed
  insurance_fee_apr ← calc_fee_rate base_rate_apr fees.insurance_fee_rate fees.insurance_fee_fixed
  protocol_fee_apr ← calc_fee_rate base_rate_apr fees.protocol_fee_rate fees.protocol_fee_fixed
  ok (record {
    base_rate_apr = base_rate_apr;
    lending_rate_apr = lending_rate_apr;
    borrowing_rate_apr = borrowing_rate_apr;
    group_fee_apr = group_fee_apr;
    insurance_fee_apr = insurance_fee_apr;
    protocol_fee_apr = protocol_fee_apr;
  })

unfoldable pub calc_accrued_interest_payment_per_period : ⦃f : Signed⦄ → ℤ → ℕ → ℤ → Outcome ℤ
unfolding seconds_per_year
calc_accrued_interest_payment_per_period ⦃f⦄ apr time_delta value = do
  delta ← or_panic (f.from_num time_delta)
  scaled ← ok_or (f.checked_mul apr delta) (math_error "ir_per_period")
  year ← seconds_per_year
  ir_per_period ← ok_or (f.checked_div scaled year) (math_error "ir_per_period")
  one_plus ← ok_or (f.checked_add f.one ir_per_period) (math_error "1+ir")
  ok_or (f.checked_mul value one_plus) (math_error "accrued_interest mul")

-- The new share values; `InterestRateStateChanges` and `AccruedShareValues` have the same fields.
pub record AccruedShareValues : Type 0 where
  pub asset_share_value : ℤ
  pub liability_share_value : ℤ

unfoldable pub calc_interest_rate_accrual_state_changes :
    ⦃f : Signed⦄ → ℕ → ℤ → ℤ → InterestRateCalc → ℤ → ℤ → Outcome AccruedShareValues
unfolding calc_interest_rate calc_accrued_interest_payment_per_period
calc_interest_rate_accrual_state_changes ⦃f⦄ time_delta assets liabilities calc asset_value
      liability_value =
    do
      utilization_rate ← ok_or (f.checked_div liabilities assets) (math_error "utilization_rate")
      interest_rates ← calc_interest_rate calc utilization_rate
      new_asset_share_value ←
          calc_accrued_interest_payment_per_period interest_rates.lending_rate_apr time_delta
            asset_value
      new_liability_share_value ←
          calc_accrued_interest_payment_per_period interest_rates.borrowing_rate_apr time_delta
            liability_value
      ok (record {
        asset_share_value = new_asset_share_value;
        liability_share_value = new_liability_share_value;
      })

abbrev pub unchanged : MarginfiState → AccruedShareValues
unchanged state = record {
  asset_share_value = state.asset_share_value;
  liability_share_value = state.liability_share_value;
}

-- The difference of the times is exact, since the earlier one is positive.
unfoldable pub accrue_share_values : ⦃f : Signed⦄ → MarginfiState → ℤ → Outcome AccruedShareValues
unfolding create_interest_rate_calculator calc_interest_rate_accrual_state_changes get_asset_amount
    get_liability_amount
accrue_share_values state unix_timestamp =
    if int_leb state.last_update (pos 0) || int_leb unix_timestamp state.last_update
    then ok (unchanged state)
    else (do
      let time_delta = max_zero (int_sub unix_timestamp state.last_update)
      if time_delta == 0 then ok (unchanged state) else (do
        total_assets ← get_asset_amount state state.total_asset_shares
        total_liabilities ← get_liability_amount state state.total_liability_shares
        if int_eqb total_assets (pos 0) || int_eqb total_liabilities (pos 0)
            then ok (unchanged state)
            else calc_interest_rate_accrual_state_changes time_delta total_assets total_liabilities
                (create_interest_rate_calculator state) state.asset_share_value
                state.liability_share_value))

-- The new state; on an error the old one stays.
unfoldable pub pre_accrue : ⦃f : Signed⦄ → MarginfiState → ℤ → Outcome MarginfiState
unfolding accrue_share_values
pre_accrue state unix_timestamp = do
  accrued ← accrue_share_values state unix_timestamp
  ok (record state {
    asset_share_value = accrued.asset_share_value;
    liability_share_value = accrued.liability_share_value;
    last_update = unix_timestamp;
  })
