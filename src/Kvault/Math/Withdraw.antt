-- ===== src/Kvault/Math/Withdraw.antt =====
-- The withdrawal of `src/your_venue/kvault/math.rs`: what a quoted amount guarantees, where the
-- value of the vault and the rates of its reserves are known.
use native.Mathlib.Nat.{div-mul-le_self, mul-le-mul, mul-le-mul_right, le_refl, le_trans}
use overpass_titan_venue.Base.{
  ℕ, ◌+◌, ◌-◌, ◌*◌, ◌/◌, ◌^◌, ◌≤◌, ◌<◌, ◌≡◌, refl, arith, min, max, IsU64, IsU128, ok, some, leb,
  Pubkey, ◌==◌, ltb→le, ◌⊎◌, inl, inr, ◌≢◌,
}
use overpass_titan_venue.Base.Arith.{burn-keeps}
use overpass_titan_venue.Base.Safe.{
  Safe, Safe-ok, Safe-if, Safe-ok->>=, Safe-ok_or, Safe-ok_or->>=, Safe-some->>=, Safe-or_panic->>=,
  Safe-fail_if, Safe-weaken, Safe->>=,
}
use overpass_titan_venue.Uint.{Uint, IsUint}
use overpass_titan_venue.Int.{ℤ}
use overpass_titan_venue.Common.State.{WrapperVault}
use overpass_titan_venue.Common.Checked.Laws.{
  NotLoss, u128_to_u64-Safe, require_no_value_per_share_loss_pass,
}
use overpass_titan_venue.Shares.Laws.{IsSized, KeepsValue}
use overpass_titan_venue.Klend.Fixed.{Fixed, IsFixed}
use overpass_titan_venue.Klend.State.{KlendState}
use overpass_titan_venue.Klend.Math.{
  ExchangeRate, fraction_collateral_to_liquidity, fraction_liquidity_to_collateral_ceil,
}
use overpass_titan_venue.Kvault.State.{
  KvaultState, ActiveAllocation, effective_penalty_bps, effective_penalty_lamports,
}
use overpass_titan_venue.Kvault.Holdings.{find_reserve, reserve_rate, current_aum}
use overpass_titan_venue.Kvault.Math.{
  disinvest, final_for_user, redeem_units, redeem_value, less_penalty, quote_withdraw,
}
use overpass_titan_venue.Kvault.Math.Deposit.{fraction_full_mul_int_ratio-Safe}

-- The penalty on `total`: the larger of its share, rounded up, and the fixed one.
abbrev pub penalty_on : KvaultState → ℕ → ℕ
penalty_on s total =
    max ((total * effective_penalty_bps s + 9999) / 10000) (effective_penalty_lamports s)

-- `total` is what `r` of the issued shares are worth, rounded down: all of the value for all of
-- them.
abbrev pub IsWorth : KvaultState → ℕ → ℕ → ℕ → Type 0
IsWorth s aum r total =
    (r ≡ s.shares_issued) × (total ≡ aum / 2 ^ 60)
    ⊎ (r ≢ s.shares_issued) × (total ≡ aum * r / s.shares_issued / 2 ^ 60)

-- What a quoted withdrawal of `x` guarantees: the burn redeems its share of the position, `x` is
-- at most what the redeemed shares are worth less the penalty, and more than the least withdrawal,
-- and the shares per wrapper share of the other holders do not fall.
pub record IsKvaultWithdrawal (s : KvaultState) (wv : WrapperVault) (aum amount x : ℕ)
    : Type 0 where
  pub redeemed : ℕ
  pub total : ℕ
  pub is_share : redeemed ≡ amount * s.position_kvault_shares / wv.wrapper_supply
  pub is_worth : IsWorth s aum redeemed total
  pub after_penalty : x + penalty_on s total ≤ total
  pub above_min : s.min_withdraw_amount < x
  pub covered : redeemed ≤ wv.intermediate_held
  pub keeps_value :
      KeepsValue s.position_kvault_shares wv.wrapper_supply
        (wv.intermediate_held - redeemed)
        (wv.wrapper_supply - amount)

-- A rate within the widths that the reserves have.
abbrev pub IsRate : ExchangeRate → Type 0
IsRate pair = IsU128 pair.collateral × IsU128 pair.supply

less_penalty-Safe :
    (s : KvaultState) (total : ℕ)
    → Safe (λ x. x + penalty_on s total ≡ total) NotLoss (less_penalty s total)
unfolding less_penalty
less_penalty-Safe s total = Safe-ok_or->>= _ _ _ refl λ prod hp.
    Safe->>= _ _ (u128_to_u64-Safe _) λ bps _ fb. Safe-fail_if _ _ _ refl λ lt.
      Safe-ok_or->>= _ _ _ refl λ x hx. Safe-fail_if _ _ _ refl λ _.
        let ep : prod ≡ total * effective_penalty_bps s = ground arith in
        let eb : bps ≡ (total * effective_penalty_bps s + 9999) / 10000 = rw (← ep) fb.1 in
        Safe-ok x (rw (← eb) (ground arith))

redeem_units-Safe :
    (s : KvaultState) (wv : WrapperVault) (amount : ℕ)
    → Safe
        (λ r. (r < 2 ^ 64) × (r ≡ amount * s.position_kvault_shares / wv.wrapper_supply))
        NotLoss
        (redeem_units s wv amount)
unfolding redeem_units
redeem_units-Safe s wv amount =
    Safe-ok_or->>= _ _ _ refl
      λ q hq. Safe-weaken _ (u128_to_u64-Safe q) λ r _ fr. (fr.0, ground arith)

module _ ⦃u : Uint⦄ ⦃f : Fixed⦄ (laws : IsUint u) (fixed : IsFixed f) where
  redeem_value-Safe :
      (s : KvaultState) (aum r : ℕ)
      → IsU128 aum
      → IsU64 r
      → Safe (λ t. IsU64 t × IsWorth s aum r t) NotLoss (redeem_value s aum r)
  unfolding redeem_value
  redeem_value-Safe s aum r ha hr =
      Safe-if (r == s.shares_issued) _ _
        (λ e. Safe-or_panic->>= _ _ (fixed.floor_lem aum) (
          Safe-or_panic->>= _ _ (fixed.to_num_lem _ (aum / 2 ^ 60 * 2 ^ 60) (omega arith)) (
            Safe-weaken _ (u128_to_u64-Safe _)
              λ t _ ft. (ft.0, inl (ground arith, omega (arith, ft.1))))))
        λ ne.
          Safe->>= _ _ (fraction_full_mul_int_ratio-Safe laws fixed aum r s.shares_issued ha hr)
            λ v _ fv. Safe-or_panic->>= _ _ (fixed.floor_lem v) (
              Safe-or_panic->>= _ _ (fixed.to_num_lem _ (v / 2 ^ 60 * 2 ^ 60) (omega arith)) (
                Safe-weaken _ (u128_to_u64-Safe _)
                  λ t _ ft. (ft.0, inr (ground arith, rw (← fv.2) (omega (arith, ft.1))))))

  fraction_collateral_to_liquidity-Safe :
      (c cs ts : ℕ) → Safe (λ v. IsU128 v) NotLoss (fraction_collateral_to_liquidity c cs ts)
  unfolding fraction_collateral_to_liquidity
  fraction_collateral_to_liquidity-Safe c cs ts = Safe-fail_if _ _ _ refl λ nz.
      Safe-ok_or->>= _ _ _ refl λ p hp. Safe-or_panic->>= _ _ (laws.div_lem p cs (ground arith)) (
        Safe-ok_or _ _ refl
          λ r hr. ground (arith, laws.to_u128_lem (p / cs), laws.to_u128_large (p / cs)))

  fraction_liquidity_to_collateral_ceil-Safe :
      (x cs ts : ℕ)
      → IsU64 x
      → IsU128 cs
      → IsU128 ts
      → Safe (λ v. IsU64 v) NotLoss (fraction_liquidity_to_collateral_ceil x cs ts)
  unfolding fraction_liquidity_to_collateral_ceil
  fraction_liquidity_to_collateral_ceil-Safe x cs ts hx hc ht =
      let small : x * cs < 2 ^ 192 = omega (
        arith,
        mul-le-mul {n₁ = x} {m₁ = cs} {n₂ = 2 ^ 64 - 1} {m₂ = 2 ^ 128 - 1} (omega arith)
            (omega arith),
      ) in
      Safe-fail_if _ _ _ refl λ _. Safe-fail_if _ _ _ refl λ nz.
        Safe-some->>= _ _ _ (laws.mul?_lem x cs (omega (arith, small))) (
          Safe-some->>= _ _ _ (laws.mul?_lem (x * cs) (2 ^ 60) (omega (arith, small))) (
            Safe-or_panic->>= _ _ (laws.add_lem (x * cs * 2 ^ 60) ts (omega (arith, small))) (
              Safe-or_panic->>= _ _ (laws.sub_lem _ 1 (ground arith)) (
                Safe-or_panic->>= _ _ (laws.div_lem _ ts (ground arith)) (
                  Safe-ok_or->>= _ _ _ refl
                    λ v _. Safe-weaken _ (u128_to_u64-Safe v) λ r _ fr. fr.0)))))

  disinvest-Safe :
      (a : ActiveAllocation) (cs ts available wanted : ℕ)
      → IsU128 cs
      → IsU128 ts
      → IsU64 wanted
      → Safe (λ x. x ≤ available + wanted) NotLoss (disinvest a cs ts available wanted)
  unfolding disinvest
  disinvest-Safe a cs ts available wanted hc ht hw =
      Safe->>= _ _ (fraction_collateral_to_liquidity-Safe a.ctoken_allocation cs ts) λ inside _ fi.
        Safe-or_panic->>= _ _ (fixed.from_num_lem wanted (omega arith)) (
          let send = min inside (wanted * 2 ^ 60) in
          let small : send ≤ wanted * 2 ^ 60 = omega arith in
          Safe-if (send == 0) _ _ (λ _. Safe-ok available (omega arith))
            λ _. Safe-or_panic->>= _ _ (fixed.floor_lem send) (
              Safe-or_panic->>= _ _
                (fixed.to_num_lem _ (send / 2 ^ 60 * 2 ^ 60) (omega (arith, small)))
                (let floor = send / 2 ^ 60 * 2 ^ 60 / 2 ^ 60 in
                  let below : floor ≤ wanted = omega (arith, small) in
                  Safe->>= _ _
                    (fraction_liquidity_to_collateral_ceil-Safe floor cs ts (omega (arith, below))
                      hc ht)
                    λ needed _ _.
                      Safe->>= _ _
                        (fraction_collateral_to_liquidity-Safe (min needed a.ctoken_allocation) cs
                          ts)
                        λ liq _ _. Safe-ok_or _ _ refl λ x hx. ground arith)))

  -- The rates of the reserves that are cached, once accrued, are within their widths.
  module _ (s : KvaultState) (slot : ℕ) (now : ℤ)
      (rates : (key : Pubkey) (r : KlendState)
        → find_reserve key s.cached_reserves ≡ some r
        → Safe IsRate NotLoss (reserve_rate r slot now)) where
    final_for_user-Safe :
        (user : ℕ) → IsU64 user → Safe (λ x. x ≤ user) NotLoss (final_for_user s slot now user)
    unfolding final_for_user
    final_for_user-Safe user hu =
        Safe-if (leb user (min s.token_available user)) _ _ (λ _. Safe-ok user (le_refl user))
          λ more. Safe-ok_or->>= _ _ _ refl λ wanted hw. Safe-ok_or->>= _ _ _ refl λ a _.
            Safe-ok_or->>= _ _ _ refl λ r hr. Safe->>= _ _ (rates a.reserve r hr) λ pair _ fp.
              let ew : wanted ≡ user - min s.token_available user = ground arith in
              Safe-weaken _
                (disinvest-Safe a pair.collateral pair.supply (min s.token_available user) wanted
                  fp.0 fp.1 (omega (arith, ew)))
                λ x _ fx. omega (arith, ew, fx)

    withdraw_keeps :
        (wv : WrapperVault) (amount r : ℕ)
        → amount ≤ wv.wrapper_supply
        → s.position_kvault_shares ≤ wv.intermediate_held
        → r ≡ amount * s.position_kvault_shares / wv.wrapper_supply
        → KeepsValue s.position_kvault_shares wv.wrapper_supply
            (wv.intermediate_held - r)
            (wv.wrapper_supply - amount)
    withdraw_keeps wv amount r le held e =
        let fair : r * wv.wrapper_supply ≤ amount * s.position_kvault_shares =
          rw e (div-mul-le_self (amount * s.position_kvault_shares) wv.wrapper_supply) in
        le_trans (burn-keeps s.position_kvault_shares wv.wrapper_supply amount r le fair)
          (mul-le-mul_right wv.wrapper_supply (omega (arith, held)))

    -- On a vault whose value is known and fits its type, where the accrual of each cached reserve
    -- gives a rate within the widths of its type or an error that is not the guard's, with a position
    -- that is within what the wrapper vault holds, and with the documented laws of `U256` and of the
    -- fractions, `quote_withdraw` of kvault never panics, never fails by the guard on the value per
    -- share, and every amount that it quotes is at most the value of the redeemed shares less the
    -- penalty.
    pub quote_withdraw-IsKvaultWithdrawal :
        (wv : WrapperVault) (aum amount : ℕ)
        → current_aum s slot now ≡ ok aum
        → IsU128 aum
        → s.position_kvault_shares ≤ wv.intermediate_held
        → IsSized wv
        → Safe (IsKvaultWithdrawal s wv aum amount) NotLoss (quote_withdraw s slot now wv amount)
    unfolding quote_withdraw
    quote_withdraw-IsKvaultWithdrawal wv aum amount ha fits held sized =
        Safe-fail_if _ _ _ refl λ _. Safe-fail_if _ _ _ refl λ le. Safe-fail_if _ _ _ refl λ _.
          Safe->>= _ _ (redeem_units-Safe s wv amount) λ r _ fr. Safe-fail_if _ _ _ refl λ _.
            Safe-ok->>= _ _ ha (
              Safe-fail_if _ _ _ refl λ _.
                Safe->>= _ _ (redeem_value-Safe s aum r fits fr.0) λ total _ ft.
                  Safe-fail_if _ _ _ refl λ _. Safe->>= _ _ (less_penalty-Safe s total) λ user _ fu.
                    Safe->>= _ _ (final_for_user-Safe user (omega (arith, fu, ft.0))) λ x _ fx.
                      Safe-fail_if _ _ _ refl λ _. Safe-fail_if _ _ _ refl λ lo.
                        Safe-ok_or->>= _ _ _ refl λ left hleft.
                          Safe-ok_or->>= _ _ _ refl λ supply hsupply.
                            let el : left ≡ wv.intermediate_held - r = ground arith in
                            let es : supply ≡ wv.wrapper_supply - amount = ground arith in
                            let keeps = withdraw_keeps wv amount r (ltb→le _ _ le) held fr.1 in
                            Safe-ok->>= _ _
                              (require_no_value_per_share_loss_pass laws _ _ left supply
                                (omega (arith, sized.held_fits)) sized.supply_fits
                                (omega (arith, el, sized.held_fits))
                                (omega (arith, es, sized.supply_fits)) (rw (el, es) keeps))
                              (Safe-ok x (record {
                                redeemed = r;
                                total = total;
                                is_share = fr.1;
                                is_worth = ft.1;
                                after_penalty = omega (arith, fu, fx);
                                above_min = ground arith;
                                covered = ground arith;
                                keeps_value = keeps;
                              })))
