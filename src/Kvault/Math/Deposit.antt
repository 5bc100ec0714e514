-- ===== src/Kvault/Math/Deposit.antt =====
-- The deposit of `src/your_venue/kvault/math.rs`: what a quoted mint guarantees, where the value
-- of the vault is known.
use native.Mathlib.Nat.{
  div-mul-le_self, div-div-eq-div-mul, mul-div-mul_right, mul-le-mul, le_trans, le_refl,
}
use overpass_titan_venue.Base.{
  ℕ, ◌+◌, ◌-◌, ◌*◌, ◌/◌, ◌^◌, ◌≤◌, ◌<◌, ◌≡◌, refl, arith, IsU64, IsU128, ok, ltb→le, ◌==◌,
}
use overpass_titan_venue.Base.Arith.{mul-lt_256, le-ceil-mul}
use overpass_titan_venue.Base.Safe.{
  Safe, Safe-ok, Safe-if, Safe-ok->>=, Safe-ok_or, Safe-ok_or->>=, Safe-some->>=, Safe-or_panic->>=,
  Safe-fail_if, Safe-weaken, Safe->>=,
}
use overpass_titan_venue.Uint.{Uint, IsUint}
use overpass_titan_venue.Int.{ℤ}
use overpass_titan_venue.Common.State.{WrapperVault, GlobalConfig}
use overpass_titan_venue.Common.Checked.Laws.{NotLoss, mul_bps-Safe, u128_to_u64-Safe}
use overpass_titan_venue.Shares.Laws.{IsSized, IsNet, KeepsValue}
use overpass_titan_venue.Shares.Proportion.{IsShareMint, share_mint-keeps, share_mint-passes}
use overpass_titan_venue.Klend.Fixed.{Fixed, IsFixed}
use overpass_titan_venue.Kvault.State.{KvaultState}
use overpass_titan_venue.Kvault.Holdings.{
  fraction_full_mul_int_ratio, current_aum, get_shares_to_mint,
}
use overpass_titan_venue.Kvault.Math.{num_reserves, max_user_tokens, kvault_mint, quote_deposit}

-- `k` shares of the vault for `tokens` beside the `issued` ones, where its value is `aum` in bits:
-- as many as the tokens at the start, else in proportion to the value rounded up, rounded down.
pub record IsVaultShares (aum tokens issued k : ℕ) : Type 0 where
  pub first : issued ≡ 0 → k ≡ tokens
  pub valued : 0 < issued → 0 < aum
  pub later : 0 < issued → k ≡ issued * tokens / ((aum + (2 ^ 60 - 1)) / 2 ^ 60)
  -- Their value is at most the tokens'.
  pub fair : 0 < issued → k * aum ≤ issued * tokens * 2 ^ 60

-- What a quoted mint `m` guarantees: after the fees and the cost of each funded reserve, the
-- tokens are within the limits of a deposit, the vault gives no more shares than they are worth,
-- the mint is in proportion to the shares of the position, and the shares per wrapper share of the
-- other holders do not fall.
pub record IsKvaultDeposit (s : KvaultState) (wv : WrapperVault) (gc : GlobalConfig)
    (aum amount m : ℕ) : Type 0 where
  pub net : ℕ
  pub tokens : ℕ
  pub bought : ℕ
  pub is_net : IsNet wv gc amount net
  pub is_tokens : tokens + num_reserves s.active_allocations * s.crank_fund_fee_per_reserve ≡ net
  pub above_min : s.min_deposit_amount ≤ tokens
  pub below_max : tokens ≤ s.cached_max_deposit
  pub is_bought : IsVaultShares aum tokens s.shares_issued bought
  pub is_mint : IsShareMint wv s.position_kvault_shares bought net m
  pub positive : 0 < m
  pub fits : m < 2 ^ 64
  pub keeps_value :
      0 < wv.wrapper_supply
      → KeepsValue s.position_kvault_shares wv.wrapper_supply
          (wv.intermediate_held + bought)
          (wv.wrapper_supply + m)

-- The scale of the fraction cancels.
scale_lem : (n d : ℕ) → n * 2 ^ 60 / d / 2 ^ 60 * 2 ^ 60 / 2 ^ 60 ≡ n / d
scale_lem n d =
    rw
      (div-div-eq-div-mul (n * 2 ^ 60) d (2 ^ 60), mul-div-mul_right {m = 2 ^ 60} n d (omega arith))
      (omega arith)

-- A quotient by the value rounded up is worth no more than what was given.
fair_lem : (n a : ℕ) → n / ((a + (2 ^ 60 - 1)) / 2 ^ 60) * a ≤ n * 2 ^ 60
fair_lem n a =
    let c = (a + (2 ^ 60 - 1)) / 2 ^ 60 in
    let up : a ≤ c * 2 ^ 60 = le-ceil-mul a (2 ^ 60) (omega arith) in
    let down : n / c * c ≤ n = div-mul-le_self n c in
    le_trans (mul-le-mul (le_refl (n / c)) up) (omega (arith, down))

max_user_tokens-Safe :
    (s : KvaultState) (net : ℕ)
    → Safe
        (λ t.
          (t + num_reserves s.active_allocations * s.crank_fund_fee_per_reserve ≡ net)
          × (s.min_deposit_amount ≤ t)
          × (t ≤ s.cached_max_deposit))
        NotLoss
        (max_user_tokens s net)
unfolding max_user_tokens
max_user_tokens-Safe s net = Safe-ok_or->>= _ _ _ refl λ crank hc. Safe-ok_or->>= _ _ _ refl λ t ht.
    Safe-fail_if _ _ _ refl
      λ lo. Safe-fail_if _ _ _ refl λ hi. Safe-ok t (ground arith, ltb→le _ _ lo, ltb→le _ _ hi)

kvault_mint-Safe :
    (s : KvaultState) (wv : WrapperVault) (k net : ℕ)
    → net < 2 ^ 64
    → Safe
        (λ m. (m < 2 ^ 64) × IsShareMint wv s.position_kvault_shares k net m)
        NotLoss
        (kvault_mint s wv k net)
unfolding kvault_mint
kvault_mint-Safe s wv k net hn =
    Safe-if (wv.wrapper_supply == 0) _ _
      (λ h. Safe-ok net (
        hn,
        record {
          first = λ _. refl;
          held = λ p. absurd (ground arith);
          later = λ p. absurd (ground arith);
        },
      ))
      λ h. Safe-fail_if _ _ _ refl λ ps. Safe-ok_or->>= _ _ _ refl λ q hq.
        Safe-weaken _ (u128_to_u64-Safe q) λ m _ fm. (
          fm.0,
          record {
            first = λ z. absurd (ground arith);
            held = λ _. ground arith;
            later = λ _. ground arith;
          },
        )

module _ ⦃u : Uint⦄ ⦃f : Fixed⦄ (laws : IsUint u) (fixed : IsFixed f) where
  pub fraction_full_mul_int_ratio-Safe :
      (fraction mult div : ℕ)
      → IsU128 fraction
      → IsU64 mult
      → Safe
          (λ r. (r < 2 ^ 128) × (0 < div) × (r ≡ fraction * mult / div))
          NotLoss
          (fraction_full_mul_int_ratio fraction mult div)
  unfolding fraction_full_mul_int_ratio
  fraction_full_mul_int_ratio-Safe a n d ha hn = Safe-fail_if _ _ _ refl λ nz.
      Safe-some->>= _ _ _ (laws.mul?_lem a n (mul-lt_256 ha (omega arith))) (
        Safe-or_panic->>= _ _ (laws.div_lem (a * n) d (ground arith)) (
          Safe-ok_or _ _ refl λ r hr.
            let there : (r < 2 ^ 128) × (r ≡ a * n / d) =
              ground (arith, laws.to_u128_lem (a * n / d), laws.to_u128_large (a * n / d)) in
            (there.0, ground arith, there.1)))

  shares_lem :
      (aum tokens issued c r k : ℕ)
      → 0 < aum
      → 0 < issued
      → c ≡ (aum + (2 ^ 60 - 1)) / 2 ^ 60
      → r ≡ issued * 2 ^ 60 * tokens / c
      → (k < 2 ^ 64) × (k ≡ r / 2 ^ 60 * 2 ^ 60 / 2 ^ 60)
      → (k < 2 ^ 64) × IsVaultShares aum tokens issued k
  shares_lem aum tokens issued c r k ha hi ec er fk =
      let scaled : issued * 2 ^ 60 * tokens ≡ issued * tokens * 2 ^ 60 = omega arith in
      let value : k ≡ issued * tokens / c = rw (fk.1, er, scaled) (scale_lem (issued * tokens) c) in
      (
        fk.0,
        record {
          first = λ z. absurd (omega arith);
          valued = λ _. ha;
          later = λ _. rw (← ec) value;
          fair = λ _. rw (value, ec) (fair_lem (issued * tokens) aum);
        },
      )

  get_shares_to_mint-Safe :
      (aum tokens issued : ℕ)
      → aum + 2 ^ 60 ≤ 2 ^ 128
      → IsU64 tokens
      → IsU64 issued
      → Safe
          (λ k. (k < 2 ^ 64) × IsVaultShares aum tokens issued k)
          NotLoss
          (get_shares_to_mint aum tokens issued)
  unfolding get_shares_to_mint
  get_shares_to_mint-Safe aum tokens issued room ht hi =
      Safe-if (issued == 0) _ _
        (λ h. Safe-ok tokens (
          ht,
          record {
            first = λ _. refl;
            valued = λ p. absurd (ground arith);
            later = λ p. absurd (ground arith);
            fair = λ p. absurd (ground arith);
          },
        ))
        λ h. Safe-fail_if _ _ _ refl λ nz.
          Safe-or_panic->>= _ _ (fixed.ceil_lem aum (omega arith)) (
            Safe-or_panic->>= _ _ (fixed.to_num_lem _ _ (omega arith)) (
              Safe->>= _ _ (u128_to_u64-Safe _) λ c _ fc. Safe-fail_if _ _ _ refl λ _.
                Safe-or_panic->>= _ _ (fixed.from_num_lem issued (omega arith)) (
                  Safe->>= _ _
                    (fraction_full_mul_int_ratio-Safe (issued * 2 ^ 60) tokens c (omega arith) ht)
                    λ r _ fr. Safe-or_panic->>= _ _ (fixed.floor_lem r) (
                      Safe-or_panic->>= _ _ (fixed.to_num_lem _ (r / 2 ^ 60 * 2 ^ 60) (omega arith))
                        (Safe-weaken _ (u128_to_u64-Safe _) λ k _ fk.
                          shares_lem aum tokens issued c r k (ground arith) (ground arith)
                            (omega (arith, fc.1)) fr.2 fk)))))

  -- On a vault whose value is known and leaves one unit of its range free, with a position that
  -- is within what the wrapper vault holds, on counts and an amount within the widths of their
  -- types, and with the documented laws of `U256` and of the fractions, `quote_deposit` of kvault
  -- never panics, never fails by the guard on the value per share, and every amount that it quotes
  -- is a fair mint within the limits of a deposit.
  pub quote_deposit-IsKvaultDeposit :
      (s : KvaultState) (slot : ℕ) (now : ℤ) (wv : WrapperVault) (gc : GlobalConfig)
      (aum amount : ℕ)
      → current_aum s slot now ≡ ok aum
      → aum + 2 ^ 60 ≤ 2 ^ 128
      → IsU64 s.shares_issued
      → s.position_kvault_shares ≤ wv.intermediate_held
      → IsSized wv
      → IsU64 amount
      → Safe (IsKvaultDeposit s wv gc aum amount) NotLoss (quote_deposit s slot now wv gc amount)
  unfolding quote_deposit
  quote_deposit-IsKvaultDeposit s slot now wv gc aum amount ha room hi le sized hamt =
      Safe-fail_if _ _ _ refl λ _.
        Safe->>= _ _ (mul_bps-Safe amount gc.protocol_deposit_fee_bps) λ p _ fp.
          Safe->>= _ _ (mul_bps-Safe amount wv.creator_deposit_fee_bps) λ c _ fc.
            Safe-ok_or->>= _ _ _ refl λ total ht. Safe-ok_or->>= _ _ _ refl λ net hn.
              let is_net : IsNet wv gc amount net = ground arith in
              let small : net < 2 ^ 64 = omega arith in
              Safe-fail_if _ _ _ refl λ _. Safe->>= _ _ (max_user_tokens-Safe s net) λ tokens _ ft.
                Safe-ok->>= _ _ ha (
                  Safe->>= _ _
                    (get_shares_to_mint-Safe aum tokens s.shares_issued room (omega (arith, ft.0))
                      hi)
                    λ k _ fk. Safe-fail_if _ _ _ refl λ _.
                      Safe->>= _ _ (kvault_mint-Safe s wv k net small) λ m _ fm.
                        Safe-fail_if _ _ _ refl λ nz. Safe-ok_or->>= _ _ _ refl λ h hh.
                          Safe-ok_or->>= _ _ _ refl λ supply hsupply.
                            let eh : h ≡ wv.intermediate_held + k = ground arith in
                            let es : supply ≡ wv.wrapper_supply + m = ground arith in
                            Safe-ok->>= _ _
                              (share_mint-passes laws wv s.position_kvault_shares k net m h supply
                                fm.1 (omega (arith, sized.held_fits)) sized.supply_fits
                                (ground arith) (ground arith) (omega (arith, eh)) es)
                              (Safe-ok m (record {
                                net = net;
                                tokens = tokens;
                                bought = k;
                                is_net = is_net;
                                is_tokens = ft.0;
                                above_min = ft.1;
                                below_max = ft.2;
                                is_bought = fk.1;
                                is_mint = fm.1;
                                positive = ground arith;
                                fits = fm.0;
                                keeps_value =
                                    share_mint-keeps wv s.position_kvault_shares k net m
                                      (wv.intermediate_held + k) fm.1 (omega arith);
                              })))
