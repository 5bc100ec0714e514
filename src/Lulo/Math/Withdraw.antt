-- ===== src/Lulo/Math/Withdraw.antt =====
-- The withdrawal of `src/your_venue/lulo/math.rs`: what is owed is no more than the proportion,
-- so that the guard on the value per share passes.
use native.Mathlib.Nat.{div-mul-le_self, div-le_self, mul-le-mul_right, le_of_mul-le-mul_right}
use overpass_titan_venue.Base.{
  ℕ, ◌+◌, ◌-◌, ◌*◌, ◌/◌, ◌^◌, ◌≤◌, ◌<◌, ◌≡◌, refl, some, arith, IsU64, ok, ◌==◌, if◌then◌else◌,
  ok_or, math_error, checked_mul, checked_div, checked_add, u128_max,
}
use overpass_titan_venue.Base.Arith.{burn-keeps}
use overpass_titan_venue.Base.Safe.{
  Safe, Safe-ok, Safe-ok_or, Safe-ok_or->>=, Safe-or_panic->>=, Safe-if, Safe-fail_if, Safe-weaken,
  Safe->>=, Safe-ok->>=,
}
use overpass_titan_venue.Uint.{Uint, IsUint}
use overpass_titan_venue.Common.State.{WrapperVault}
use overpass_titan_venue.Common.Checked.Laws.{
  NotLoss, u128_to_u64-Safe, require_no_value_per_share_loss_pass,
}
use overpass_titan_venue.Shares.{and_then}
use overpass_titan_venue.Shares.Laws.{IsSized, KeepsValue}
use overpass_titan_venue.Lulo.State.{LuloState}
use overpass_titan_venue.Lulo.Math.{lulo_lp_value, n_owed, quote_withdraw}
use overpass_titan_venue.Lulo.Math.Value.{ratio_lem, lulo_lp_value-Safe}

-- The widths of the fields of a pool and a position.
pub record IsPool (s : LuloState) : Type 0 where
  pub amount_fits : s.protected_amount < 2 ^ 64
  pub supply_fits : s.protected_total_supply < 2 ^ 64
  pub charged_fits : s.charged_q60 < 2 ^ 128
  pub avg_fits : s.avg_q60 < 2 ^ 128

module _ ⦃u : Uint⦄ where
  -- What a quoted withdrawal of `x` guarantees: `value` is the position's value before it, at most
  -- its share of the pool; `x` is at most the proportion of that and of the idle holdings, less
  -- one unit; and the value per share of the other holders does not fall.
  pub record IsLuloWithdrawal (s : LuloState) (wv : WrapperVault) (amount x : ℕ) : Type 0 where
    pub value : ℕ
    pub is_value :
        lulo_lp_value s.protected_amount s.protected_total_supply wv.intermediate_held s.charged_q60
          s.avg_q60 s.ref_bps
        ≡ ok value
    pub value_bound : value * s.protected_total_supply ≤ wv.intermediate_held * s.protected_amount
    pub fair : (x + 1) * wv.wrapper_supply ≤ amount * (wv.free_underlying_held + value)
    pub partial : amount < wv.wrapper_supply
    pub positive : 0 < x
    pub fits : x < 2 ^ 64
    pub keeps_value :
        KeepsValue
          (wv.free_underlying_held + value)
          wv.wrapper_supply
          (wv.free_underlying_held + value - x)
          (wv.wrapper_supply - amount)

-- The part of the position's value, first in units and then in value, each rounded down.
lp_part-Safe :
    (old value s amount user : ℕ)
    → 0 < s
    → user * s ≤ amount * old
    → Safe
        (λ r. r * s ≤ amount * value)
        NotLoss
        (if old == 0
          then ok 0
          else ok_or
              (and_then (checked_mul u128_max value user) (λ x. checked_div x old))
              (math_error "lp part"))
lp_part-Safe old value s amount user pos share =
    Safe-if (old == 0) _ _ (λ _. Safe-ok 0 (omega arith))
      λ nz. Safe-ok_or _ _ refl λ r hr.
        let fr = ratio_lem value user old r hr in
        let quot : r * old ≤ value * user = rw fr.1 (div-mul-le_self (value * user) old) in
        let scaled : r * old * s ≤ value * user * s = mul-le-mul_right s quot in
        let units : user * s * value ≤ amount * old * value = mul-le-mul_right value share in
        let all : r * s * old ≤ amount * value * old = omega (arith, scaled, units) in
        le_of_mul-le-mul_right {m = r * s} {n = amount * value} {k = old} all fr.0

ceil_price_fits :
    (pa pts : ℕ) → IsU64 pa → IsU64 pts → (if pts == 0 then 0 else (pa + (pts - 1)) / pts) < 2 ^ 65
ceil_price_fits pa pts ha hp = let below = div-le_self (pa + (pts - 1)) pts in ground (arith, below)

margin_lem : (c : ℕ) → c < 2 ^ 65 → checked_add u128_max c 1 ≡ some (c + 1)
margin_lem c h = ground arith

-- What is owed is below the proportion by more than one unit, if it is anything.
pub n_owed-Safe :
    (st : LuloState) (wv : WrapperVault) (value amount : ℕ)
    → IsPool st
    → 0 < wv.wrapper_supply
    → Safe
        (λ x.
          (x < 2 ^ 64)
          × (0 < x → (x + 1) * wv.wrapper_supply ≤ amount * (wv.free_underlying_held + value)))
        NotLoss
        (n_owed st wv value amount)
unfolding n_owed
n_owed-Safe st wv value amount pool pos = Safe-ok_or->>= _ _ _ refl λ free hf.
    Safe-ok_or->>= _ _ _ refl λ user hu.
      let ff = ratio_lem amount wv.free_underlying_held wv.wrapper_supply free hf in
      let fu = ratio_lem amount wv.intermediate_held wv.wrapper_supply user hu in
      let free_share : free * wv.wrapper_supply ≤ amount * wv.free_underlying_held =
        rw ff.1 (div-mul-le_self (amount * wv.free_underlying_held) wv.wrapper_supply) in
      let units : user * wv.wrapper_supply ≤ amount * wv.intermediate_held =
        rw fu.1 (div-mul-le_self (amount * wv.intermediate_held) wv.wrapper_supply) in
      Safe->>= _ _ (lp_part-Safe wv.intermediate_held value wv.wrapper_supply amount user pos units)
        λ part _ fp. Safe-ok_or->>= _ _ _ refl λ sum hs.
          let es : sum ≡ free + part = ground arith in
          let price =
            ceil_price_fits st.protected_amount st.protected_total_supply pool.amount_fits
              pool.supply_fits in
          Safe-or_panic->>= _ _ (margin_lem _ price) (
            Safe-weaken _ (u128_to_u64-Safe _) λ x _ fx. (
              fx.0,
              λ px.
                  let below : x + 1 ≤ free + part = omega (arith, fx.1, es) in
                  let scaled : (x + 1) * wv.wrapper_supply ≤ (free + part) * wv.wrapper_supply =
                    mul-le-mul_right wv.wrapper_supply below in
                  omega (arith, scaled, free_share, fp),
            ))

module _ ⦃u : Uint⦄ (laws : IsUint u) where
  -- On a pool, a position and a vault within the widths of their types, and with laws of `U256` as
  -- documented, `quote_withdraw` of Lulo never panics, never fails by the guard on the value per share, and every
  -- amount that it quotes is fair and leaves a share behind.
  pub quote_withdraw-IsLuloWithdrawal :
      (st : LuloState) (wv : WrapperVault) (amount : ℕ)
      → IsPool st
      → IsSized wv
      → Safe (IsLuloWithdrawal st wv amount) NotLoss (quote_withdraw st wv amount)
  unfolding quote_withdraw
  quote_withdraw-IsLuloWithdrawal st wv amount pool sized = Safe-fail_if _ _ _ refl λ _.
      Safe-fail_if _ _ _ refl λ _. Safe-fail_if _ _ _ refl λ le. Safe-fail_if _ _ _ refl λ nz.
        let pos : 0 < wv.wrapper_supply = ground arith in
        Safe->>= _ _
          (lulo_lp_value-Safe laws _ _ _ _ _ st.ref_bps pool.amount_fits pool.supply_fits
            sized.held_fits pool.charged_fits pool.avg_fits)
          λ v ev fv. Safe-ok_or->>= _ _ _ refl λ total ht. Safe-fail_if _ _ _ refl λ _.
            Safe-fail_if _ _ _ refl λ ne.
              Safe->>= _ _ (n_owed-Safe st wv v amount pool pos) λ x _ fx.
                Safe-fail_if _ _ _ refl λ nx. Safe-ok_or->>= _ _ _ refl λ left hl.
                  Safe-ok_or->>= _ _ _ refl λ shares hs.
                    let px : 0 < x = ground arith in
                    let et : total ≡ wv.free_underlying_held + v = ground arith in
                    let less : amount < wv.wrapper_supply = ground arith in
                    let fair : x * wv.wrapper_supply ≤ amount * total =
                      rw et (omega (arith, fx.1 px)) in
                    let keeps = burn-keeps total wv.wrapper_supply amount x (omega arith) fair in
                    let el : left ≡ total - x = ground arith in
                    let eh : shares ≡ wv.wrapper_supply - amount = ground arith in
                    let small : total < 2 ^ 64 = ground arith in
                    Safe-ok->>= _ _
                      (require_no_value_per_share_loss_pass laws total wv.wrapper_supply left shares
                        (omega arith) sized.supply_fits (omega (arith, el))
                        (omega (arith, eh, sized.supply_fits)) (rw (el, eh) keeps))
                      (Safe-ok x (record {
                        value = v;
                        is_value = ev;
                        value_bound = fv.1;
                        fair = fx.1 px;
                        partial = less;
                        positive = px;
                        fits = fx.0;
                        keeps_value = rw (← et) keeps;
                      }))
