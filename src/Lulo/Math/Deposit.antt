-- ===== src/Lulo/Math/Deposit.antt =====
-- The deposit of `src/your_venue/lulo/math.rs`: what it mints is in proportion to the value that
-- it is predicted to add, so that the guard on the value per share passes.
use native.Mathlib.Nat.{div-mul-le_self, mul-le-mul_right}
use native.Mathlib.Decide.{dec_lt, dec_le}
use overpass_titan_venue.Base.{
  ℕ, ◌+◌, ◌-◌, ◌*◌, ◌/◌, ◌^◌, ◌≤◌, ◌<◌, ◌≡◌, refl, inl, some, arith, ok, ◌==◌, checked_sub,
}
use overpass_titan_venue.Base.Arith.{le-ceil-mul, ceil-le}
use overpass_titan_venue.Base.Safe.{
  Safe, Safe-ok, Safe-ok_or, Safe-ok_or->>=, Safe-or_panic->>=, Safe-if, Safe-fail_if, Safe-weaken,
  Safe->>=, Safe-ok->>=,
}
use overpass_titan_venue.Uint.{Uint, IsUint}
use overpass_titan_venue.Common.State.{WrapperVault, GlobalConfig}
use overpass_titan_venue.Common.Checked.{require_no_value_per_share_loss}
use overpass_titan_venue.Common.Checked.Laws.{
  NotLoss, mul_bps-Safe, u128_to_u64-Safe, require_no_value_per_share_loss_pass,
  require_no_value_per_share_loss_empty,
}
use overpass_titan_venue.Shares.Laws.{IsSized, IsNet, KeepsValue}
use overpass_titan_venue.Lulo.State.{LuloState}
use overpass_titan_venue.Lulo.Math.{
  min, position_fee_usdc, lulo_lp_value, fee_lp_ceil, predict_value, lulo_mint, quote_deposit,
}
use overpass_titan_venue.Lulo.Math.Value.{
  ratio_lem, min-le, lulo_lp_value-Safe, position_fee_usdc-Safe,
}
use overpass_titan_venue.Lulo.Math.Withdraw.{IsPool}

-- `m` shares for a value that goes from `v` to `v'`: all of it at the start, else in proportion to
-- what is added, rounded down.
pub record IsValueMint (wv : WrapperVault) (v v' m : ℕ) : Type 0 where
  pub first : wv.wrapper_supply ≡ 0 → (v ≡ 0) × (m ≡ v')
  pub later : 0 < wv.wrapper_supply → (0 < v) × (m ≡ (v' - v) * wv.wrapper_supply / v)

lulo_mint-Safe :
    (wv : WrapperVault) (v v' : ℕ)
    → v' < 2 ^ 64
    → Safe (λ m. (m < 2 ^ 64) × IsValueMint wv v v' m) NotLoss (lulo_mint wv v v')
unfolding lulo_mint
lulo_mint-Safe wv v v' fits =
    Safe-if (wv.wrapper_supply == 0) _ _
      (λ z. Safe-fail_if _ _ _ refl λ e.
        Safe-ok v' (
          fits,
          record { first = λ _. (ground arith, refl); later = λ pos. absurd (ground arith) },
        ))
      λ nz. Safe-fail_if _ _ _ refl λ e. Safe-ok_or->>= _ _ _ refl λ q hq.
        let fq = ratio_lem (v' - v) wv.wrapper_supply v q hq in
        Safe-weaken _ (u128_to_u64-Safe q) λ m _ fm. (
          fm.0,
          record {
            first = λ z. absurd (ground arith);
            later = λ pos. (fq.0, omega (arith, fm.1, fq.1));
          },
        )

-- The least number of units that are worth the fee.
pub record AreFeeUnits (pa pts fee units : ℕ) : Type 0 where
  pub cover : fee * pts ≤ units * pa
  pub least : (l : ℕ) → fee * pts ≤ l * pa → units ≤ l

fee_lp_ceil-Safe :
    (pa pts fee : ℕ) → 0 < pa → Safe (AreFeeUnits pa pts fee) NotLoss (fee_lp_ceil pa pts fee)
unfolding fee_lp_ceil
fee_lp_ceil-Safe pa pts fee pos =
    Safe-if (fee == 0) _ _
      (λ z.
        let none_due : fee ≡ 0 = ground arith in
        Safe-ok 0 (record { cover = rw none_due (omega arith); least = λ l _. omega arith }))
      λ _. Safe-ok_or->>= _ _ _ refl λ n hn. Safe-or_panic->>= _ _ (less_one pa pos) (
        Safe-ok_or _ _ refl λ r hr.
          let en : n ≡ fee * pts = ground arith in
          let er : r ≡ (fee * pts + (pa - 1)) / pa = rw (← en) (ground arith) in
          record {
            cover = rw er (le-ceil-mul (fee * pts) pa pos);
            least = λ l h. rw er (ceil-le (fee * pts) pa l pos h);
          })
  where
    less_one : (n : ℕ) → 0 < n → checked_sub n 1 ≡ some (n - 1)
    less_one n h = ground arith

module _ ⦃u : Uint⦄ where
  -- The prediction of the value after `net` is staked with what is free. It buys its share of the
  -- pool, less the units for the fee on the profit that the position has with them. The value is
  -- that of the position then, with its fee put back, and at most the old value and `net`.
  pub record IsPrediction (st : LuloState) (wv : WrapperVault) (net before after : ℕ) : Type 0 where
    pub bought : ℕ
    pub fee : ℕ
    pub fee_units : ℕ
    pub units : ℕ
    pub value : ℕ
    pub value_fee : ℕ
    pub is_bought :
        bought ≡ (wv.free_underlying_held + net) * st.protected_total_supply / st.protected_amount
    pub is_fee :
        position_fee_usdc st.protected_amount st.protected_total_supply
          (wv.intermediate_held + bought)
          wv.intermediate_held
          st.charged_q60
          st.avg_q60
          st.ref_bps
        ≡ ok fee
    pub are_fee_units : AreFeeUnits st.protected_amount st.protected_total_supply fee fee_units
    pub are_units : units ≡ wv.intermediate_held + (bought - fee_units)
    pub is_value :
        lulo_lp_value st.protected_amount st.protected_total_supply units st.charged_q60 st.avg_q60
          st.ref_bps
        ≡ ok value
    pub is_value_fee :
        position_fee_usdc st.protected_amount st.protected_total_supply units units st.charged_q60
          st.avg_q60 st.ref_bps
        ≡ ok value_fee
    pub is_after : after ≡ min (value + value_fee) (before + net)

module _ ⦃u : Uint⦄ (laws : IsUint u) where
  predict_value-Safe :
      (st : LuloState) (wv : WrapperVault) (net before : ℕ)
      → IsPool st
      → IsSized wv
      → Safe
          (λ v. (v < 2 ^ 64) × (v ≤ before + net) × IsPrediction st wv net before v)
          NotLoss
          (predict_value st wv net before)
  unfolding predict_value
  predict_value-Safe st wv net before pool sized = Safe-ok_or->>= _ _ _ refl λ buffer hb.
      Safe-fail_if _ _ _ refl λ pa. Safe-ok_or->>= _ _ _ refl λ new_lp hn.
        Safe-ok_or->>= _ _ _ refl λ lp_a hlp.
          let fits_a : lp_a < 2 ^ 128 = ground arith in
          Safe->>= _ _
            (position_fee_usdc-Safe laws _ _ lp_a _ _ _ st.ref_bps pool.amount_fits pool.supply_fits
              fits_a sized.held_fits pool.charged_fits pool.avg_fits)
            λ fee efee _. Safe->>= _ _ (fee_lp_ceil-Safe _ _ fee (ground arith)) λ fee_lp _ ffee.
              Safe-ok_or->>= _ _ _ refl λ post hp.
                let fits_p : post < 2 ^ 128 = ground arith in
                Safe->>= _ _
                  (lulo_lp_value-Safe laws _ _ post _ _ st.ref_bps pool.amount_fits pool.supply_fits
                    fits_p pool.charged_fits pool.avg_fits)
                  λ value evalue _.
                    Safe->>= _ _
                      (position_fee_usdc-Safe laws _ _ post post _ _ st.ref_bps pool.amount_fits
                        pool.supply_fits fits_p fits_p pool.charged_fits pool.avg_fits)
                      λ post_fee epost _. Safe-ok_or->>= _ _ _ refl λ staked hs.
                        Safe-ok_or->>= _ _ _ refl λ dust hd.
                          let ed : (dust ≡ before + net) × (dust < 2 ^ 64) = ground arith in
                          let es : staked ≡ value + post_fee = ground arith in
                          let eb : buffer ≡ wv.free_underlying_held + net = ground arith in
                          let ea : lp_a ≡ wv.intermediate_held + new_lp = ground arith in
                          let ep : post ≡ wv.intermediate_held + (new_lp - fee_lp) = ground arith in
                          Safe-ok _ (
                            omega (arith, min-le staked dust, ed.1),
                            omega (arith, min-le staked dust, ed.0),
                            record {
                              bought = new_lp;
                              fee = fee;
                              fee_units = fee_lp;
                              units = post;
                              value = value;
                              value_fee = post_fee;
                              is_bought = rw (← eb) (ratio_lem _ _ _ _ hn).1;
                              is_fee = rw (← ea) efee;
                              are_fee_units = ffee;
                              are_units = ep;
                              is_value = evalue;
                              is_value_fee = epost;
                              is_after = rw (es, ed.0) refl;
                            },
                          )

module _ ⦃u : Uint⦄ where
  -- What a quoted mint `m` for `amount` guarantees: `value` is the position's value before it, the
  -- net amount is within half of what the pool may still take, `after` is the predicted total value
  -- of `IsPrediction`, at most the old one and the net amount, `m` is in proportion to what is added, and the
  -- value per share of the holders does not fall.
  pub record IsLuloDeposit (s : LuloState) (wv : WrapperVault) (gc : GlobalConfig) (amount m : ℕ)
      : Type 0 where
    pub net : ℕ
    pub value : ℕ
    pub after : ℕ
    pub is_value :
        lulo_lp_value s.protected_amount s.protected_total_supply wv.intermediate_held s.charged_q60
          s.avg_q60 s.ref_bps
        ≡ ok value
    pub is_net : IsNet wv gc amount net
    pub within_cap : net * 2 + s.protected_amount ≤ s.deposit_limit
    pub predicted : IsPrediction s wv net (wv.free_underlying_held + value) after
    pub after_bound : after ≤ wv.free_underlying_held + value + net
    pub is_mint : IsValueMint wv (wv.free_underlying_held + value) after m
    pub positive : 0 < m
    pub fits : m < 2 ^ 64
    pub keeps_value :
        0 < wv.wrapper_supply
        → KeepsValue
            (wv.free_underlying_held + value)
            wv.wrapper_supply
            after
            (wv.wrapper_supply + m)

module _ ⦃u : Uint⦄ (laws : IsUint u) where
  mint_keeps :
      (wv : WrapperVault) (v v' m : ℕ)
      → IsValueMint wv v v' m
      → 0 < m
      → 0 < wv.wrapper_supply
      → KeepsValue v wv.wrapper_supply v' (wv.wrapper_supply + m)
  mint_keeps wv v v' m mint pm ps =
      let share : m * v ≤ (v' - v) * wv.wrapper_supply =
        rw (mint.later ps).1 (div-mul-le_self ((v' - v) * wv.wrapper_supply) v) in
      elim (dec_le v v') [
        | yes le ↦ let e : v' ≡ v + (v' - v) = omega arith in rw e (omega (arith, share))
        | no gt ↦
            let e : v' - v ≡ 0 = omega arith in
            let pv = (mint.later ps).0 in
            let none_added : m * v ≤ 0 = omega (arith, rw e at share) in
            let some_added : 1 * v ≤ m * v = mul-le-mul_right v pm in
            absurd (omega (arith, pv, none_added, some_added))
      ]

  value_guard :
      (wv : WrapperVault) (v v' m shares : ℕ)
      → IsSized wv
      → v < 2 ^ 64
      → v' < 2 ^ 64
      → shares < 2 ^ 64
      → shares ≡ wv.wrapper_supply + m
      → IsValueMint wv v v' m
      → 0 < m
      → require_no_value_per_share_loss v wv.wrapper_supply v' shares ≡ ok tt
  value_guard wv v v' m shares sized hv hv' hs es mint pm = elim (dec_lt 0 wv.wrapper_supply) [
    | yes pos ↦
        require_no_value_per_share_loss_pass laws _ _ _ _ (omega arith) sized.supply_fits
          (omega arith) hs (rw es (mint_keeps wv v v' m mint pm pos))
    | no n ↦ require_no_value_per_share_loss_empty laws _ _ _ _ (inl (omega arith))
  ]

  -- On a pool, a position and a vault within the widths of their types, and with laws of `U256` as
  -- documented, `quote_deposit` of Lulo never panics, never fails by the guard on the value per share, and every
  -- amount that it quotes is in proportion to the value that the stake is predicted to add, after
  -- the units that the fee of the pool takes.
  pub quote_deposit-IsLuloDeposit :
      (st : LuloState) (wv : WrapperVault) (gc : GlobalConfig) (amount : ℕ)
      → IsPool st
      → IsSized wv
      → Safe (IsLuloDeposit st wv gc amount) NotLoss (quote_deposit st wv gc amount)
  unfolding quote_deposit
  quote_deposit-IsLuloDeposit st wv gc amount pool sized = Safe-fail_if _ _ _ refl λ _.
      Safe-fail_if _ _ _ refl λ _.
        Safe->>= _ _ (mul_bps-Safe amount gc.protocol_deposit_fee_bps) λ p _ fp.
          Safe->>= _ _ (mul_bps-Safe amount wv.creator_deposit_fee_bps) λ c _ fc.
            Safe-ok_or->>= _ _ _ refl λ fee hfee. Safe-ok_or->>= _ _ _ refl λ net hnet.
              Safe-fail_if _ _ _ refl λ nn. Safe-fail_if _ _ _ refl λ cap.
                Safe->>= _ _
                  (lulo_lp_value-Safe laws _ _ _ _ _ st.ref_bps pool.amount_fits pool.supply_fits
                    sized.held_fits pool.charged_fits pool.avg_fits)
                  λ v ev _. Safe-ok_or->>= _ _ _ refl λ total ht.
                    let et : total ≡ wv.free_underlying_held + v = ground arith in
                    let small : total < 2 ^ 64 = ground arith in
                    Safe->>= _ _ (predict_value-Safe laws st wv net total pool sized) λ after _ fa.
                      Safe->>= _ _ (lulo_mint-Safe wv total after fa.0) λ m _ fm.
                        Safe-fail_if _ _ _ refl λ nz. Safe-ok_or->>= _ _ _ refl λ shares hs.
                          let pm : 0 < m = ground arith in
                          let es : shares ≡ wv.wrapper_supply + m = ground arith in
                          let fs : shares < 2 ^ 64 = ground arith in
                          Safe-ok->>= _ _
                            (value_guard wv total after m shares sized small fa.0 fs es fm.1 pm)
                            (Safe-ok m (record {
                              net = net;
                              value = v;
                              after = after;
                              is_value = ev;
                              is_net = ground arith;
                              within_cap = ground arith;
                              predicted = rw (← et) fa.2;
                              after_bound = rw (← et) fa.1;
                              is_mint = rw (← et) fm.1;
                              positive = pm;
                              fits = fm.0;
                              keeps_value =
                                  λ pos. rw (← et) (mint_keeps wv total after m fm.1 pm pos);
                            }))
