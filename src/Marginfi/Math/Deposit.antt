-- ===== src/Marginfi/Math/Deposit.antt =====
-- The deposit of `src/your_venue/marginfi/math.rs`: what a quoted mint guarantees.
use native.Mathlib.Nat.{div-div-eq-div-mul, mul-div-mul_right}
use overpass_titan_venue.Base.{
  ℕ, ◌+◌, ◌*◌, ◌/◌, ◌^◌, ◌<◌, ◌≡◌, refl, sym, ap, arith, ok, some, false, IsU64, u64_max, ◌==◌,
  ◌||◌, fail_if, math_error,
}
use overpass_titan_venue.Base.Safe.{
  Safe, Safe-ok, Safe-err, Safe-if, Safe-guard, Safe-ok->>=, Safe-ok_or, Safe-ok_or->>=,
  Safe-or_panic->>=, Safe-fail_if, Safe-weaken, Safe->>=,
}
use overpass_titan_venue.Uint.{Uint, IsUint}
use overpass_titan_venue.Int.{ℤ, pos, int_leb, int_eqb, max_zero}
use overpass_titan_venue.Common.State.{WrapperVault, GlobalConfig}
use overpass_titan_venue.Common.Checked.Laws.{NotLoss, mul_bps-Safe}
use overpass_titan_venue.Shares.Proportion.{IsShareMint, share_mint-keeps, share_mint-passes}
use overpass_titan_venue.Shares.Laws.{IsNet, KeepsValue}
use overpass_titan_venue.Marginfi.Signed.{Signed, IsSigned}
use overpass_titan_venue.Marginfi.Signed.Laws.{
  int_leb-pos, int_eqb-pos, checked_mul_some, checked_add_some, checked_div_some,
  checked_to_u64_some, mul-div_some,
}
use overpass_titan_venue.Marginfi.State.{
  MarginfiState, BankOperationalState, paused, operational, reduce_only, killed_by_bankruptcy,
}
use overpass_titan_venue.Marginfi.Rates.{AccruedShareValues, accrue_share_values}
use overpass_titan_venue.Marginfi.Math.{can_deposit, check_capacity, marginfi_mint, quote_deposit}
use overpass_titan_venue.Marginfi.Math.Quotes.{IsBank}

-- The assets of the bank stay below its limit, where it has one.
abbrev pub WithinLimit :
    (s : MarginfiState) (acc : AccruedShareValues) (b : IsBank s acc) → ℕ → Type 0
WithinLimit s acc b d =
    s.deposit_limit == 0 || s.deposit_limit == u64_max ≡ false
    → (b.total_shares + d) * b.value / 2 ^ 48 < s.deposit_limit * 2 ^ 48

-- What a quoted mint `m` guarantees: the bank gives for the net amount the shares `d` that it is
-- worth, rounded down, and stays within its limit; the mint is in proportion to the shares, and
-- the shares per wrapper share of the other holders do not fall.
pub record IsMarginfiDeposit (s : MarginfiState) (acc : AccruedShareValues) (b : IsBank s acc)
    (wv : WrapperVault) (gc : GlobalConfig) (amount m : ℕ) : Type 0 where
  pub net : ℕ
  pub bought : ℕ
  pub is_net : IsNet wv gc amount net
  pub is_bought : bought ≡ net * 2 ^ 48 * 2 ^ 48 / b.value
  pub within_limit : WithinLimit s acc b bought
  pub is_mint : IsShareMint wv b.shares bought net m
  pub positive : 0 < m
  pub fits : m < 2 ^ 64
  pub keeps_value :
      0 < wv.wrapper_supply
      → KeepsValue b.shares wv.wrapper_supply (b.shares + bought) (wv.wrapper_supply + m)

can_deposit-Safe : (o : BankOperationalState) → Safe (λ _. Unit {0}) NotLoss (can_deposit o)
unfolding can_deposit
can_deposit-Safe killed_by_bankruptcy = Safe-err _ refl
can_deposit-Safe paused = Safe-err _ refl
can_deposit-Safe reduce_only = Safe-err _ refl
can_deposit-Safe operational = Safe-ok tt tt

below-Safe :
    (l n : ℕ)
    → Safe (λ _. n < l) NotLoss (fail_if (int_leb (pos l) (pos n)) (math_error "capacity exceeded"))
below-Safe l n = Safe-guard (int_leb (pos l) (pos n)) _ refl λ h. int_leb-pos l n h

-- Scaling a quotient up and down again changes nothing.
scale_lem : (n p : ℕ) → n * 2 ^ 48 / p / 2 ^ 48 * 2 ^ 48 / 2 ^ 48 ≡ n / p
scale_lem n p =
    rw
      (div-div-eq-div-mul (n * 2 ^ 48) p (2 ^ 48), mul-div-mul_right {m = 2 ^ 48} n p (omega arith))
      (omega arith)

module _ ⦃f : Signed⦄ (signed : IsSigned f) where
  check_capacity-Safe :
      (s : MarginfiState) (acc : AccruedShareValues) (b : IsBank s acc) (d : ℕ)
      → IsU64 s.deposit_limit
      → Safe (λ _. WithinLimit s acc b d) NotLoss (check_capacity s acc.asset_share_value (pos d))
  unfolding check_capacity
  check_capacity-Safe s acc b d fits =
      Safe-if (s.deposit_limit == 0 || s.deposit_limit == u64_max) _ _
        (λ h. Safe-ok tt λ h'. absurd cc)
        λ h.
          rw (b.is_value, b.is_total_shares)
            (Safe-ok_or->>= _ _ _ refl λ shares hs.
              let es = checked_add_some f signed b.total_shares d shares hs in
              rw es.1 (
                Safe-ok_or->>= _ _ _ refl λ assets ha.
                  let ea = checked_mul_some f signed (b.total_shares + d) b.value assets ha in
                  rw ea.1 (
                    Safe-or_panic->>= _ _ (signed.from_num_lem s.deposit_limit (omega arith))
                      (Safe-weaken _ (below-Safe _ _) λ _ _ below _. below))))

  marginfi_mint-Safe :
      (wv : WrapperVault) (d shares net : ℕ)
      → wv.wrapper_supply < 2 ^ 64
      → net < 2 ^ 64
      → Safe
          (λ m. (m < 2 ^ 64) × IsShareMint wv shares d net m)
          NotLoss
          (marginfi_mint wv (pos d) (pos shares) net)
  unfolding marginfi_mint
  marginfi_mint-Safe wv d shares net hs hn =
      Safe-if (wv.wrapper_supply == 0) _ _
        (λ h. Safe-ok net (
          hn,
          record {
            first = λ _. refl;
            held = λ p. absurd (ground arith);
            later = λ p. absurd (ground arith);
          },
        ))
        λ h. Safe-fail_if _ _ _ refl λ ps.
          Safe-or_panic->>= _ _ (signed.from_num_lem wv.wrapper_supply (omega arith)) (
            Safe-ok_or->>= _ _ _ refl λ calc hc.
              let shares_positive = int_leb-pos shares 0 ps in
              let ec =
                mul-div_some f signed d (wv.wrapper_supply * 2 ^ 48) shares calc shares_positive
                  hc in
              rw ec (
                Safe-or_panic->>= _ _ (signed.floor_lem _) (
                  Safe-ok_or _ _ refl λ m hm.
                    let em = checked_to_u64_some f signed _ m hm in
                    (
                      em.0,
                      record {
                        first = λ z. absurd (ground arith);
                        held = λ _. shares_positive;
                        later = λ _.
                            let e : d * (wv.wrapper_supply * 2 ^ 48) / 2 ^ 48
                                ≡ d * wv.wrapper_supply =
                              omega arith in
                            rw (em.1, e) (scale_lem (d * wv.wrapper_supply) shares);
                      },
                    ))))

module _ ⦃u : Uint⦄ ⦃f : Signed⦄ (laws : IsUint u) (signed : IsSigned f) where
  held :
      (s : MarginfiState) (acc : AccruedShareValues) (b : IsBank s acc)
      → max_zero s.cached_user_asset_shares ≡ b.shares
  unfolding max_zero
  held s acc b = ap max_zero b.is_shares

  is_bought_lem :
      (s : MarginfiState) (acc : AccruedShareValues) (b : IsBank s acc) (net : ℕ) (bought : ℤ)
      → int_eqb acc.asset_share_value (pos 0) ≡ false
      → f.checked_div (pos (net * 2 ^ 48)) acc.asset_share_value ≡ some bought
      → bought ≡ pos (net * 2 ^ 48 * 2 ^ 48 / b.value)
  is_bought_lem s acc b net bought zero hb =
      let nz = int_eqb-pos b.value 0 (rw (sym b.is_value) zero) in
      (checked_div_some f signed (net * 2 ^ 48) b.value bought (omega arith)
        (rw (sym b.is_value) hb)).1

  minted :
      (s : MarginfiState) (acc : AccruedShareValues) (b : IsBank s acc) (wv : WrapperVault)
      (d net : ℕ)
      → wv.wrapper_supply < 2 ^ 64
      → net < 2 ^ 64
      → Safe
          (λ m. (m < 2 ^ 64) × IsShareMint wv b.shares d net m)
          NotLoss
          (marginfi_mint wv (pos d) s.cached_user_asset_shares net)
  minted s acc b wv d net hs hn = rw b.is_shares (marginfi_mint-Safe signed wv d b.shares net hs hn)

  -- On a bank whose shares and share values are not negative, where the accrual of the bank
  -- succeeds, and a vault, a limit and an amount that fit 64 bits, and with the documented laws of
  -- `U256` and of the fractions, `quote_deposit` of Marginfi never panics, never fails by the guard
  -- on the value per share, and every amount that it quotes is a fair mint within the limit of the
  -- bank.
  pub quote_deposit-IsMarginfiDeposit :
      (s : MarginfiState) (now : ℤ) (wv : WrapperVault) (gc : GlobalConfig)
      (acc : AccruedShareValues) (amount : ℕ)
      → accrue_share_values s now ≡ ok acc
      → (b : IsBank s acc) → wv.wrapper_supply < 2 ^ 64
      → IsU64 s.deposit_limit
      → IsU64 amount
      → Safe (IsMarginfiDeposit s acc b wv gc amount) NotLoss (quote_deposit s now wv gc amount)
  unfolding quote_deposit max_zero
  quote_deposit-IsMarginfiDeposit s now wv gc acc amount ha b hs hl hamt =
      Safe-fail_if _ _ _ refl λ _. Safe-fail_if _ _ _ refl λ _.
        Safe->>= _ _ (can_deposit-Safe s.operational_state) λ _ _ _.
          Safe->>= _ _ (mul_bps-Safe amount gc.protocol_deposit_fee_bps) λ p _ fp.
            Safe->>= _ _ (mul_bps-Safe amount wv.creator_deposit_fee_bps) λ c _ fc.
              Safe-ok_or->>= _ _ _ refl λ total ht. Safe-ok_or->>= _ _ _ refl λ net hn.
                Safe-fail_if _ _ _ refl λ _. Safe-ok->>= _ _ ha (
                  Safe-fail_if _ _ _ refl λ zero.
                    let is_net : IsNet wv gc amount net = ground arith in
                    let small : net < 2 ^ 64 = omega arith in
                    Safe-or_panic->>= _ _ (signed.from_num_lem net (omega arith)) (
                      Safe-ok_or->>= _ _ _ refl λ bought hb.
                        let d = net * 2 ^ 48 * 2 ^ 48 / b.value in
                        let eb = is_bought_lem s acc b net bought zero hb in
                        rw eb (
                          Safe->>= _ _ (check_capacity-Safe signed s acc b d hl) λ _ _ within.
                            Safe-fail_if _ _ _ refl λ _.
                              Safe->>= _ _ (minted s acc b wv d net hs small) λ m _ fm.
                                Safe-fail_if _ _ _ refl λ nz. Safe-ok_or->>= _ _ _ refl λ h hh.
                                  Safe-ok_or->>= _ _ _ refl λ supply hsupply.
                                    let eh : h ≡ b.shares + d =
                                      rw (sym (held s acc b)) (ground arith) in
                                    let es : supply ≡ wv.wrapper_supply + m = ground arith in
                                    Safe-ok->>= _ _
                                      (rw (held s acc b) (
                                        share_mint-passes laws wv b.shares d net m h supply fm.1
                                          (omega (arith, b.shares_fit)) hs (ground arith)
                                          (ground arith) (omega (arith, eh)) es))
                                      (Safe-ok m (record {
                                        net = net;
                                        bought = d;
                                        is_net = is_net;
                                        is_bought = refl;
                                        within_limit = within;
                                        is_mint = fm.1;
                                        positive = ground arith;
                                        fits = fm.0;
                                        keeps_value =
                                            share_mint-keeps wv b.shares d net m (b.shares + d) fm.1
                                              (omega arith);
                                      })))))
