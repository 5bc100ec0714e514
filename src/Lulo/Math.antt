-- ===== src/Lulo/Math.antt =====
-- `src/your_venue/lulo/math.rs`: the profit and fee of a position, its value and the two quotes.
pub mod Value
pub mod Withdraw
pub mod Deposit
mod Tests
use overpass_titan_venue.Base.{
  ℕ, ◌+◌, ◌-◌, ◌*◌, ◌/◌, ◌%◌, ◌^◌, not, Outcome, ok, err, ◌>>=◌, ◌>>◌, ok_or, or_panic, fail_if,
  math_error, ltb, leb, ◌==◌, ◌||◌, if◌then◌else◌, checked_add, checked_sub, checked_mul,
  checked_div, try_from, saturating_sub, u64_max, u128_max,
}
use overpass_titan_venue.Uint.{Uint}
use overpass_titan_venue.Common.Checked.{u128_to_u64, mul_bps, require_no_value_per_share_loss}
use overpass_titan_venue.Common.State.{WrapperVault, GlobalConfig}
use overpass_titan_venue.Shares.{and_then}
use overpass_titan_venue.Lulo.State.{LuloState}

abbrev q60_shift : ℕ
q60_shift = 60

abbrev pub min : ℕ → ℕ → ℕ
min a b = if ltb b a then b else a

unfoldable pub cpos : ⦃u : Uint⦄ → ℕ → ℕ → ℕ → ℕ → Outcome ℕ
cpos ⦃u⦄ pa pts lp basis_q60 = if pts == 0 || pa == 0 || lp == 0 then ok 0 else (do
  let q60 = u.shl 1 q60_shift
  pa_q60 ← or_panic (u.mul pa q60)
  basis_pts ← or_panic (u.mul basis_q60 pts)
  gain_q60 ← (if leb pa_q60 basis_pts then ok 0 else or_panic (u.sub pa_q60 basis_pts))
  gain_lp ← or_panic (u.mul gain_q60 lp)
  pts_q60 ← or_panic (u.mul pts q60)
  profit ← or_panic (u.div gain_lp pts_q60)
  ok_or (try_from u64_max (u.low_u128 profit)) (math_error "lulo profit overflow"))

-- `as u64` keeps the low 64 bits.
unfoldable pub fee_from_profit : ℕ → ℕ → Outcome ℕ
fee_from_profit profit_usdc ref_bps = do
  pb ← ok_or (checked_mul u128_max profit_usdc ref_bps) (math_error "lulo fee mul")
  ok (if pb == 0 then 0 else (pb - 1) / 10000 % 2 ^ 64)

unfoldable pub position_fee_usdc : ⦃u : Uint⦄ → ℕ → ℕ → ℕ → ℕ → ℕ → ℕ → ℕ → Outcome ℕ
position_fee_usdc pa pts lp_a old_lp charged_q60 avg_q60 ref_bps = do
  a ← cpos pa pts lp_a charged_q60
  b ← cpos pa pts old_lp avg_q60
  fee_from_profit (min a b) ref_bps

unfoldable pub lulo_lp_value : ⦃u : Uint⦄ → ℕ → ℕ → ℕ → ℕ → ℕ → ℕ → Outcome ℕ
lulo_lp_value pa pts old_lp charged_q60 avg_q60 ref_bps =
    if pts == 0 || pa == 0 || old_lp == 0 then ok 0 else (do
      fee_usdc ← position_fee_usdc pa pts old_lp old_lp charged_q60 avg_q60 ref_bps
      quot ←
          ok_or (and_then (checked_mul u128_max old_lp pa) (λ x. checked_div x pts))
            (math_error "lulo gross")
      gross ← ok_or (try_from u64_max quot) (math_error "lulo gross overflow")
      ok (saturating_sub gross fee_usdc))

-- The units that the fee takes, rounded up. Its subtraction is exact, since `pa` is positive.
unfoldable pub fee_lp_ceil : ℕ → ℕ → ℕ → Outcome ℕ
fee_lp_ceil pa pts fee_usdc = if fee_usdc == 0 then ok 0 else (do
  num ← ok_or (checked_mul u128_max fee_usdc pts) (math_error "fee_lp num")
  pa_less_one ← or_panic (checked_sub pa 1)
  ok_or (and_then (checked_add u128_max num pa_less_one) (λ x. checked_div x pa))
      (math_error "fee_lp_ceil"))

-- The value that the position is predicted to have after a deposit of `net_amount`.
unfoldable pub predict_value : ⦃u : Uint⦄ → LuloState → WrapperVault → ℕ → ℕ → Outcome ℕ
predict_value state wv net_amount total_value_before = do
  let pa = state.protected_amount
  let pts = state.protected_total_supply
  let old_lp = wv.intermediate_held
  buffer_total ←
      ok_or (checked_add u64_max wv.free_underlying_held net_amount) (math_error "buffer overflow")
  fail_if (pa == 0) (math_error "lulo pa=0")
  new_lp ←
      ok_or (and_then (checked_mul u128_max buffer_total pts) (λ x. checked_div x pa))
        (math_error "new_lp")
  lp_a ← ok_or (checked_add u128_max old_lp new_lp) (math_error "lp_a")
  fee_usdc ← position_fee_usdc pa pts lp_a old_lp state.charged_q60 state.avg_q60 state.ref_bps
  fee_lp ← fee_lp_ceil pa pts fee_usdc
  let lp_net_pred = saturating_sub new_lp fee_lp
  post_lp_pred ← ok_or (checked_add u128_max old_lp lp_net_pred) (math_error "post_lp_pred")
  post_value ← lulo_lp_value pa pts post_lp_pred state.charged_q60 state.avg_q60 state.ref_bps
  post_fee ←
      position_fee_usdc pa pts post_lp_pred post_lp_pred state.charged_q60 state.avg_q60
        state.ref_bps
  staked_value ← ok_or (checked_add u64_max post_value post_fee) (math_error "post gross")
  with_dust ← ok_or (checked_add u64_max total_value_before net_amount) (math_error "dust value")
  ok (min staked_value with_dust)

unfoldable pub lulo_mint : WrapperVault → ℕ → ℕ → Outcome ℕ
lulo_mint wv total_value_before new_value_pred =
    let value_added = saturating_sub new_value_pred total_value_before in
    if wv.wrapper_supply == 0
    then (do
      fail_if (not (total_value_before == 0)) (math_error "supply=0 value>0")
      ok new_value_pred)
    else (do
      fail_if (total_value_before == 0) (math_error "supply>0 value=0")
      quot ←
          ok_or
            (and_then (checked_mul u128_max value_added wv.wrapper_supply)
              (λ x. checked_div x total_value_before))
            (math_error "mint calc")
      u128_to_u64 quot)

unfoldable pub quote_deposit : ⦃u : Uint⦄ → LuloState → WrapperVault → GlobalConfig → ℕ → Outcome ℕ
quote_deposit state wv gc amount = do
  fail_if (amount == 0) (math_error "zero amount")
  fail_if (not (state.halted_flag == 0)) (math_error "lulo halted")
  protocol_fee ← mul_bps amount gc.protocol_deposit_fee_bps
  creator_fee ← mul_bps amount wv.creator_deposit_fee_bps
  total_fee ← ok_or (checked_add u64_max protocol_fee creator_fee) (math_error "deposit fee sum")
  net_amount ← ok_or (checked_sub amount total_fee) (math_error "net amount")
  fail_if (net_amount == 0) (math_error "net amount zero")
  let cap_headroom = saturating_sub state.deposit_limit state.protected_amount
  fail_if (ltb (cap_headroom / 2) net_amount) (math_error "lulo coverage cap")
  lp_value_before ←
      lulo_lp_value state.protected_amount state.protected_total_supply wv.intermediate_held
        state.charged_q60 state.avg_q60 state.ref_bps
  total_value_before ←
      ok_or (checked_add u64_max wv.free_underlying_held lp_value_before) (math_error "total value")
  new_value_pred ← predict_value state wv net_amount total_value_before
  wrapper_to_mint ← lulo_mint wv total_value_before new_value_pred
  fail_if (wrapper_to_mint == 0) (math_error "mint zero")
  new_wrapper_supply ←
      ok_or (checked_add u64_max wv.wrapper_supply wrapper_to_mint) (math_error "new supply")
  _ ←
      require_no_value_per_share_loss total_value_before wv.wrapper_supply new_value_pred
        new_wrapper_supply
  ok wrapper_to_mint

-- What a burn of `amount` is owed.
unfoldable pub n_owed : LuloState → WrapperVault → ℕ → ℕ → Outcome ℕ
n_owed state wv lp_value amount = do
  let s = wv.wrapper_supply
  let pa = state.protected_amount
  let pts = state.protected_total_supply
  let old_lp = wv.intermediate_held
  free_share ←
      ok_or (and_then (checked_mul u128_max amount wv.free_underlying_held) (λ x. checked_div x s))
        (math_error "free share")
  user_lp ←
      ok_or (and_then (checked_mul u128_max amount old_lp) (λ x. checked_div x s))
        (math_error "user lp")
  lp_part ←
      (if old_lp == 0
        then ok 0
        else ok_or (and_then (checked_mul u128_max lp_value user_lp) (λ x. checked_div x old_lp))
            (math_error "lp part"))
  let ceil_price = if pts == 0 then 0 else (pa + (pts - 1)) / pts
  sum ← ok_or (checked_add u128_max free_share lp_part) (math_error "owed calc")
  margin ← or_panic (checked_add u128_max ceil_price 1)
  u128_to_u64 (saturating_sub sum margin)

unfoldable pub quote_withdraw : ⦃u : Uint⦄ → LuloState → WrapperVault → ℕ → Outcome ℕ
unfolding n_owed
quote_withdraw state wv amount = do
  fail_if (amount == 0) (math_error "zero amount")
  fail_if (not (state.halted_flag == 0)) (math_error "lulo halted")
  fail_if (ltb wv.wrapper_supply amount) (math_error "burn exceeds supply")
  fail_if (wv.wrapper_supply == 0) (math_error "supply zero")
  lp_value ←
      lulo_lp_value state.protected_amount state.protected_total_supply wv.intermediate_held
        state.charged_q60 state.avg_q60 state.ref_bps
  total_value_before ←
      ok_or (checked_add u64_max wv.free_underlying_held lp_value) (math_error "total value")
  fail_if (total_value_before == 0) (math_error "total value zero")
  fail_if (amount == wv.wrapper_supply)
      (math_error "lulo full-exit not quoted (drain-zone); withdraw supply-1")
  owed ← n_owed state wv lp_value amount
  fail_if (owed == 0) (math_error "owed zero")
  new_value_pred ← ok_or (checked_sub total_value_before owed) (math_error "new value pred")
  new_wrapper_supply ← ok_or (checked_sub wv.wrapper_supply amount) (math_error "new supply")
  _ ←
      require_no_value_per_share_loss total_value_before wv.wrapper_supply new_value_pred
        new_wrapper_supply
  ok owed
