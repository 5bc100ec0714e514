-- ===== src/Shares/Proportion.antt =====
-- The mint that the sources with shares of their own give, in proportion to those shares, and why
-- it passes the guard on the value per share.
use native.Mathlib.Nat.{div-mul-le_self, mul-le-mul_right}
use native.Mathlib.Decide.{dec_lt}
use overpass_titan_venue.Base.{ℕ, ◌+◌, ◌*◌, ◌/◌, ◌^◌, ◌≤◌, ◌<◌, ◌≡◌, ap, arith, ok, inl}
use overpass_titan_venue.Uint.{Uint, IsUint}
use overpass_titan_venue.Common.State.{WrapperVault}
use overpass_titan_venue.Common.Checked.{require_no_value_per_share_loss}
use overpass_titan_venue.Common.Checked.Laws.{
  require_no_value_per_share_loss_pass, require_no_value_per_share_loss_empty,
}
use overpass_titan_venue.Shares.Laws.{KeepsValue}

-- `m` wrapper shares for `d` shares of the source beside the `shares` that are held: `net` of them
-- at the start, else in proportion, rounded down.
pub record IsShareMint (wv : WrapperVault) (shares d net m : ℕ) : Type 0 where
  pub first : wv.wrapper_supply ≡ 0 → m ≡ net
  pub held : 0 < wv.wrapper_supply → 0 < shares
  pub later : 0 < wv.wrapper_supply → m ≡ d * wv.wrapper_supply / shares

-- Such a mint leaves the others no fewer shares per wrapper share, where the vault then holds at
-- least the sum.
pub share_mint-keeps :
    (wv : WrapperVault) (shares d net m h : ℕ)
    → IsShareMint wv shares d net m
    → shares + d ≤ h
    → 0 < wv.wrapper_supply
    → KeepsValue shares wv.wrapper_supply h (wv.wrapper_supply + m)
share_mint-keeps wv shares d net m h mint le supplied = omega (
  arith,
  div-mul-le_self (d * wv.wrapper_supply) shares,
  ap (λ (t : ℕ). t * shares) (mint.later supplied),
  mul-le-mul_right wv.wrapper_supply le,
)

module _ ⦃u : Uint⦄ (laws : IsUint u) where
  pub share_mint-passes :
      (wv : WrapperVault) (shares d net m h s : ℕ)
      → IsShareMint wv shares d net m
      → shares < 2 ^ 128
      → wv.wrapper_supply < 2 ^ 64
      → h < 2 ^ 128
      → s < 2 ^ 64
      → shares + d ≤ h
      → s ≡ wv.wrapper_supply + m
      → require_no_value_per_share_loss shares wv.wrapper_supply h s ≡ ok tt
  share_mint-passes wv shares d net m h s mint fits hs fh fs le es =
      elim (dec_lt 0 wv.wrapper_supply) [
        | yes supplied ↦
            require_no_value_per_share_loss_pass laws _ _ _ _ fits hs fh fs
              (rw es (share_mint-keeps wv shares d net m h mint le supplied))
        | no n ↦ require_no_value_per_share_loss_empty laws _ _ _ _ (inl (omega arith))
      ]
