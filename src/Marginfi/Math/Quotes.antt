-- ===== src/Marginfi/Math/Quotes.antt =====
-- The quotes of `src/your_venue/marginfi/math.rs`: what a quoted amount guarantees, on a bank
-- whose interest has been accrued.
use native.Mathlib.Nat.{div-mul-le_self, div-le_of_le-mul, mul-le-mul, le_refl}
use overpass_titan_venue.Base.{
  ℕ, ◌+◌, ◌-◌, ◌*◌, ◌/◌, ◌^◌, ◌≤◌, ◌<◌, ◌≡◌, refl, sym, ap, arith, Bool, fail_if, math_error, ok,
  true, false, not, some, some,
}
use overpass_titan_venue.Base.Arith.{burn-keeps}
use overpass_titan_venue.Base.Safe.{
  Safe, Safe-ok, Safe-err, Safe-ok->>=, Safe-ok_or->>=, Safe-some->>=, Safe-or_panic->>=,
  Safe-fail_if, Safe-guard, Safe->>=,
}
use overpass_titan_venue.Uint.{Uint, IsUint}
use overpass_titan_venue.Int.{ℤ, pos, int_leb, nat_sub, max_zero}
use overpass_titan_venue.Common.State.{WrapperVault}
use overpass_titan_venue.Common.Checked.Laws.{NotLoss, require_no_value_per_share_loss_pass}
use overpass_titan_venue.Shares.Laws.{KeepsValue}
use overpass_titan_venue.Marginfi.Signed.{Signed, IsSigned}
use overpass_titan_venue.Marginfi.Signed.Laws.{
  to_i128_lem, int_leb-nat_sub, int_leb-pos, checked_mul_some, checked_to_u64_some,
}
use overpass_titan_venue.Marginfi.State.{
  MarginfiState, BankOperationalState, paused, operational, reduce_only, killed_by_bankruptcy,
}
use overpass_titan_venue.Marginfi.Rates.{AccruedShareValues, accrue_share_values}
use overpass_titan_venue.Marginfi.Math.{can_withdraw, check_liquidity, quote_withdraw}

-- A bank in good standing: none of its shares and share values is negative, in bits. `shares`
-- are those of the wrapper vault.
pub record IsBank (s : MarginfiState) (acc : AccruedShareValues) : Type 0 where
  pub value : ℕ
  pub liability_value : ℕ
  pub shares : ℕ
  pub total_shares : ℕ
  pub liability_shares : ℕ
  pub is_value : acc.asset_share_value ≡ pos value
  pub is_liability_value : acc.liability_share_value ≡ pos liability_value
  pub is_shares : s.cached_user_asset_shares ≡ pos shares
  pub is_total_shares : s.total_asset_shares ≡ pos total_shares
  pub is_liability_shares : s.total_liability_shares ≡ pos liability_shares
  pub shares_fit : shares < 2 ^ 127

-- What a quoted withdrawal of `x` guarantees: the shares `r` that the burn redeems are its
-- proportion of the vault's, `x` is their value rounded down, the bank still covers its
-- liabilities after it, and the shares per wrapper share of the other holders do not fall.
pub record IsMarginfiWithdrawal (s : MarginfiState) (acc : AccruedShareValues) (b : IsBank s acc)
    (wv : WrapperVault) (amount x : ℕ) : Type 0 where
  pub redeemed : ℕ
  pub is_share : redeemed ≡ amount * b.shares / wv.wrapper_supply
  pub is_value : x ≡ redeemed * b.value / 2 ^ 48 / 2 ^ 48
  pub covers :
      b.liability_shares * b.liability_value / 2 ^ 48 + x * 2 ^ 48
      ≤ b.total_shares * b.value / 2 ^ 48
  pub covered : redeemed ≤ b.shares
  pub positive : 0 < x
  pub fits : x < 2 ^ 64
  pub keeps_value :
      KeepsValue b.shares wv.wrapper_supply (b.shares - redeemed) (wv.wrapper_supply - amount)

burn-le : (a h s : ℕ) → a ≤ s → a * h / s ≤ h
burn-le a h s le = div-le_of_le-mul s (mul-le-mul le (le_refl h))

can_withdraw-Safe : (o : BankOperationalState) → Safe (λ _. Unit {0}) NotLoss (can_withdraw o)
unfolding can_withdraw
can_withdraw-Safe killed_by_bankruptcy = Safe-err _ refl
can_withdraw-Safe paused = Safe-err _ refl
can_withdraw-Safe operational = Safe-ok tt tt
can_withdraw-Safe reduce_only = Safe-ok tt tt

not-false : (b : Bool) → not b ≡ false → b ≡ true
not-false true h = refl
not-false false h = absurd cc

not_positive : (z : ℤ) (n : ℕ) → z ≡ pos n → int_leb z (pos 0) ≡ false → 0 < n
not_positive z n e h = int_leb-pos n 0 (rw (sym e) h)

covers-Safe :
    (l a w : ℕ)
    → Safe
        (λ _. l + w ≤ a)
        NotLoss
        (fail_if (not (int_leb (pos l) (nat_sub a w))) (math_error "liabilities"))
covers-Safe l a w =
    Safe-guard (not (int_leb (pos l) (nat_sub a w))) _ refl
      λ h. int_leb-nat_sub l a w (not-false _ h)

module _ ⦃f : Signed⦄ (signed : IsSigned f) where
  check_liquidity-Safe :
      (s : MarginfiState) (acc : AccruedShareValues) (b : IsBank s acc) (x : ℕ)
      → x < 2 ^ 64
      → Safe
          (λ _.
            b.liability_shares * b.liability_value / 2 ^ 48 + x * 2 ^ 48
            ≤ b.total_shares * b.value / 2 ^ 48)
          NotLoss
          (check_liquidity s acc x)
  unfolding check_liquidity
  check_liquidity-Safe s acc b x fits =
      rw (b.is_value, b.is_liability_value, b.is_total_shares, b.is_liability_shares)
        (Safe-ok_or->>= _ _ _ refl λ assets ha.
          let ea = checked_mul_some f signed b.total_shares b.value assets ha in
          Safe-ok_or->>= _ _ _ refl λ liabilities hl.
            let el =
              checked_mul_some f signed b.liability_shares b.liability_value liabilities hl in
            rw (ea.1, el.1)
              (Safe-or_panic->>= _ _ (signed.from_num_lem x (omega arith)) (
                Safe-some->>= _ _ _ (signed.checked_sub_lem _ (x * 2 ^ 48) ea.0 (omega arith)) (
                  covers-Safe (b.liability_shares * b.liability_value / 2 ^ 48)
                    (b.total_shares * b.value / 2 ^ 48) (x * 2 ^ 48)))))

module _ ⦃u : Uint⦄ ⦃f : Signed⦄ (laws : IsUint u) (signed : IsSigned f) where
  -- On a bank whose shares and share values are not negative, where the accrual of the bank
  -- succeeds, and a vault whose supply fits 64 bits, and with the documented laws of `U256` and of
  -- the fractions, `quote_withdraw` of Marginfi never panics, never fails by the guard on the value
  -- per share, and every amount that it quotes is covered by the bank and fair.
  pub quote_withdraw-IsMarginfiWithdrawal :
      (s : MarginfiState) (now : ℤ) (wv : WrapperVault) (acc : AccruedShareValues) (amount : ℕ)
      → accrue_share_values s now ≡ ok acc
      → (b : IsBank s acc) → wv.wrapper_supply < 2 ^ 64
      → Safe (IsMarginfiWithdrawal s acc b wv amount) NotLoss (quote_withdraw s now wv amount)
  unfolding quote_withdraw max_zero
  quote_withdraw-IsMarginfiWithdrawal s now wv acc amount ha b hs = Safe-fail_if _ _ _ refl λ nz.
      Safe-fail_if _ _ _ refl λ _. Safe->>= _ _ (can_withdraw-Safe s.operational_state) λ _ _ _.
        Safe-fail_if _ _ _ refl λ le. Safe-fail_if _ _ _ refl λ _.
          Safe-ok_or->>= _ _ _ refl λ red hred.
            let le' : amount ≤ wv.wrapper_supply = ground arith in
            let pro_rata : red ≡ amount * b.shares / wv.wrapper_supply =
              rw (sym held) (ground arith) in
            let covered : red ≤ b.shares =
              rw pro_rata (burn-le amount b.shares wv.wrapper_supply le') in
            Safe-fail_if _ _ _ refl λ _. Safe-ok->>= _ _ ha (
              Safe-ok_or->>= _ _ _ refl (λ under hunder.
                let hu : f.checked_mul (pos red) (pos b.value) ≡ some under =
                  rw (sym (to_i128_lem red (omega (arith, b.shares_fit))), sym b.is_value) hunder in
                let eu = checked_mul_some f signed red b.value under hu in
                rw eu.1 (
                  Safe-or_panic->>= _ _ (signed.floor_lem _) (
                    Safe-ok_or->>= _ _ _ refl λ x hx.
                      let ex = checked_to_u64_some f signed _ x hx in
                      Safe-fail_if _ _ _ refl λ nx.
                        Safe->>= _ _ (check_liquidity-Safe signed s acc b x ex.0) λ _ _ covers.
                          Safe-ok_or->>= _ _ _ refl λ left hleft.
                            Safe-ok_or->>= _ _ _ refl λ supply hsupply.
                              let el : left ≡ b.shares - red = rw (sym held) (ground arith) in
                              let es : supply ≡ wv.wrapper_supply - amount = ground arith in
                              let keeps : KeepsValue b.shares wv.wrapper_supply (b.shares - red)
                                  (wv.wrapper_supply - amount) =
                                burn-keeps b.shares wv.wrapper_supply amount red le' (
                                  rw pro_rata
                                    (div-mul-le_self (amount * b.shares) wv.wrapper_supply)) in
                              Safe-ok->>= _ _
                                (require_no_value_per_share_loss_pass laws _ _ left supply
                                  (rw held (omega (arith, b.shares_fit))) hs
                                  (rw el (omega (arith, b.shares_fit))) (omega arith)
                                  (rw (held, el, es) keeps))
                                (Safe-ok x (record {
                                  redeemed = red;
                                  is_share = pro_rata;
                                  is_value = omega (arith, ex.1);
                                  covers = covers;
                                  covered = covered;
                                  positive = ground arith;
                                  fits = ex.0;
                                  keeps_value = keeps;
                                }))))))
    where
      held : max_zero s.cached_user_asset_shares ≡ b.shares
      held = ap max_zero b.is_shares
