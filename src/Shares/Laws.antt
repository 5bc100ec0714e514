-- ===== src/Shares/Laws.antt =====
-- What the shared steps guarantee. None of them panics or raises the error of the guard.
use native.Mathlib.Nat.{div-mul-le_self}
use native.Mathlib.Decide.{dec_lt}
use overpass_titan_venue.Base.{
  ℕ, ◌+◌, ◌-◌, ◌*◌, ◌/◌, ◌^◌, ◌≤◌, ◌<◌, ◌≡◌, refl, ap, inl, String, ok, arith, math_error, ◌==◌,
}
use overpass_titan_venue.Base.Arith.{burn-keeps}
use overpass_titan_venue.Base.Safe.{
  Safe, Safe-ok, Safe-ok_or, Safe-ok_or->>=, Safe-if, Safe-fail_if, Safe-weaken, Safe->>=,
}
use overpass_titan_venue.Uint.{Uint, IsUint}
use overpass_titan_venue.Common.State.{WrapperVault, GlobalConfig}
use overpass_titan_venue.Common.Checked.{require_no_value_per_share_loss}
use overpass_titan_venue.Common.Checked.Laws.{
  NotLoss, mul_bps-Safe, u128_to_u64-Safe, require_no_value_per_share_loss_pass,
  require_no_value_per_share_loss_empty,
}
use overpass_titan_venue.Shares.{net_of_fees, mint_share, check_mint, redeem_share, check_burn}

-- The widths of the two fields that the shares are computed from.
pub record IsSized (wv : WrapperVault) : Type 0 where
  pub held_fits : wv.intermediate_held < 2 ^ 128
  pub supply_fits : wv.wrapper_supply < 2 ^ 64

-- `m` wrapper shares for `c` units: `net` of them at the start, else in proportion, rounded down.
pub record IsMint (wv : WrapperVault) (c net m : ℕ) : Type 0 where
  pub first : wv.wrapper_supply ≡ 0 → m ≡ net
  pub held : 0 < wv.wrapper_supply → 0 < wv.intermediate_held
  pub later : 0 < wv.wrapper_supply → m ≡ c * wv.wrapper_supply / wv.intermediate_held

-- The net amount is the amount less both fees, each rounded down.
abbrev pub IsNet : WrapperVault → GlobalConfig → ℕ → ℕ → Type 0
IsNet wv gc amount net =
    net + amount * gc.protocol_deposit_fee_bps / 10000 + amount * wv.creator_deposit_fee_bps / 10000
    ≡ amount

pub net_of_fees-Safe :
    (wv : WrapperVault) (gc : GlobalConfig) (amount : ℕ)
    → Safe (IsNet wv gc amount) NotLoss (net_of_fees wv gc amount)
unfolding net_of_fees
net_of_fees-Safe wv gc amount =
    Safe->>= _ _ (mul_bps-Safe amount gc.protocol_deposit_fee_bps) λ p _ hp.
      Safe->>= _ _ (mul_bps-Safe amount wv.creator_deposit_fee_bps)
        λ c _ hc. Safe-ok_or _ _ refl λ r hr. ground arith

pub mint_share-Safe :
    (l1 l2 l3 : String) (wv : WrapperVault) (c net : ℕ)
    → NotLoss (math_error l1)
    → NotLoss (math_error l2)
    → NotLoss (math_error l3)
    → net < 2 ^ 64
    → Safe (λ m. (m < 2 ^ 64) × IsMint wv c net m) NotLoss (mint_share l1 l2 l3 wv c net)
unfolding mint_share
mint_share-Safe l1 l2 l3 wv c net e1 e2 e3 fits =
    Safe-if (wv.wrapper_supply == 0) _ _ (λ h. Safe-ok net (fits, ground arith))
      λ h. Safe-fail_if _ _ _ e1 λ pos. Safe-ok_or->>= _ _ _ e2 λ p hp.
        Safe-ok_or->>= _ _ _ e3
          λ q hq. Safe-weaken _ (u128_to_u64-Safe q) λ m _ hm. (hm.0, ground arith)

-- The vault holds no fewer units per share than before.
abbrev pub KeepsValue : ℕ → ℕ → ℕ → ℕ → Type 0
KeepsValue held supply held' supply' = held * supply' ≤ held' * supply

-- What a burn redeems is in proportion, rounded down.
pub redeem_share-Safe :
    (wv : WrapperVault) (amount : ℕ)
    → 0 < wv.wrapper_supply
    → Safe
        (λ r. (r < 2 ^ 64) × (r ≡ amount * wv.intermediate_held / wv.wrapper_supply))
        NotLoss
        (redeem_share wv amount)
unfolding redeem_share
redeem_share-Safe wv amount pos = Safe-ok_or->>= _ _ _ refl λ p hp.
    Safe-ok_or->>= _ _ _ refl
      λ q hq. Safe-weaken _ (u128_to_u64-Safe q) λ m _ hm. (hm.0, ground arith)

module _ ⦃u : Uint⦄ (laws : IsUint u) where
  -- A mint in proportion, rounded down, passes the guard.
  mint_keeps :
      (c net m : ℕ) (wv : WrapperVault)
      → IsMint wv c net m
      → 0 < wv.wrapper_supply
      → KeepsValue wv.intermediate_held wv.wrapper_supply
          (wv.intermediate_held + c)
          (wv.wrapper_supply + m)
  mint_keeps c net m wv mint pos = omega (
    arith,
    div-mul-le_self (c * wv.wrapper_supply) wv.intermediate_held,
    ap (λ (t : ℕ). t * wv.intermediate_held) (mint.later pos),
  )

  pub check_mint-Safe :
      (wv : WrapperVault) (c net m : ℕ)
      → IsSized wv
      → IsMint wv c net m
      → Safe
          (λ _.
            (0 < wv.wrapper_supply
              → KeepsValue wv.intermediate_held wv.wrapper_supply
                  (wv.intermediate_held + c)
                  (wv.wrapper_supply + m)))
          NotLoss
          (check_mint wv c m)
  unfolding check_mint
  check_mint-Safe wv c net m sized mint = Safe-ok_or->>= _ _ _ refl λ h hh.
      Safe-ok_or->>= _ _ _ refl λ s hs.
        let eh : h ≡ wv.intermediate_held + c = ground arith in
        let es : s ≡ wv.wrapper_supply + m = ground arith in
        let fh : h < 2 ^ 128 = ground arith in
        let fs : s < 2 ^ 64 = ground arith in
        rw (passes h s fh fs eh es (dec_lt 0 wv.wrapper_supply))
          (Safe-ok tt (mint_keeps c net m wv mint))
    where
      passes :
          (h s : ℕ)
          → h < 2 ^ 128
          → s < 2 ^ 64
          → h ≡ wv.intermediate_held + c
          → s ≡ wv.wrapper_supply + m
          → Dec (0 < wv.wrapper_supply)
          → require_no_value_per_share_loss wv.intermediate_held wv.wrapper_supply h s ≡ ok tt
      passes h s fh fs eh es (no n) =
          require_no_value_per_share_loss_empty laws _ _ _ _ (inl (omega arith))
      passes h s fh fs eh es (yes pos) =
          require_no_value_per_share_loss_pass laws _ _ _ _ sized.held_fits sized.supply_fits fh fs
            (rw (eh, es) (mint_keeps c net m wv mint pos))

  burn_keeps :
      (wv : WrapperVault) (amount r : ℕ)
      → amount ≤ wv.wrapper_supply
      → r ≡ amount * wv.intermediate_held / wv.wrapper_supply
      → KeepsValue wv.intermediate_held wv.wrapper_supply
          (wv.intermediate_held - r)
          (wv.wrapper_supply - amount)
  burn_keeps wv amount r le e =
      burn-keeps wv.intermediate_held wv.wrapper_supply amount r le
        (rw e (div-mul-le_self (amount * wv.intermediate_held) wv.wrapper_supply))

  pub check_burn-Safe :
      (wv : WrapperVault) (amount r : ℕ)
      → IsSized wv
      → amount ≤ wv.wrapper_supply
      → r ≡ amount * wv.intermediate_held / wv.wrapper_supply
      → Safe
          (λ _.
            (r ≤ wv.intermediate_held)
            × KeepsValue wv.intermediate_held wv.wrapper_supply
                (wv.intermediate_held - r)
                (wv.wrapper_supply - amount))
          NotLoss
          (check_burn wv r amount)
  unfolding check_burn
  check_burn-Safe wv amount r sized le e = Safe-ok_or->>= _ _ _ refl λ h hh.
      Safe-ok_or->>= _ _ _ refl λ s hs.
        let eh : h ≡ wv.intermediate_held - r = ground arith in
        let es : s ≡ wv.wrapper_supply - amount = ground arith in
        let fit : r ≤ wv.intermediate_held = ground arith in
        let keeps = burn_keeps wv amount r le e in
        rw
          (require_no_value_per_share_loss_pass laws _ _ h s sized.held_fits sized.supply_fits
            (omega (arith, sized.held_fits)) (omega (arith, sized.supply_fits)) (rw (eh, es) keeps))
          (Safe-ok tt (fit, keeps))
