-- ===== src/Shares.antt =====
-- The steps that the quotes of Save and Klend (`src/your_venue/save/math.rs` and
-- `src/your_venue/klend/math.rs`) have in common: the fees, the wrapper shares that a deposit
-- mints, the units that a burn redeems, and the guard on the value per share after each.
pub mod Laws
pub mod Proportion
pub mod RoundTrip
use overpass_titan_venue.Base.{
  ℕ, Outcome, ok, ◌>>=◌, ◌>>◌, ok_or, fail_if, math_error, Option, none, some, ◌==◌, String,
  if◌then◌else◌, checked_add, checked_sub, checked_mul, checked_div, u64_max, u128_max,
}
use overpass_titan_venue.Uint.{Uint}
use overpass_titan_venue.Common.Checked.{require_no_value_per_share_loss, u128_to_u64, mul_bps}
use overpass_titan_venue.Common.State.{WrapperVault, GlobalConfig}

abbrev pub and_then {ℓ} : {A B : Type ℓ} → Option A → (A → Option B) → Option B
and_then none f = none
and_then (some a) f = f a

unfoldable pub net_of_fees : WrapperVault → GlobalConfig → ℕ → Outcome ℕ
net_of_fees wv gc amount = do
  protocol_fee ← mul_bps amount gc.protocol_deposit_fee_bps
  creator_fee ← mul_bps amount wv.creator_deposit_fee_bps
  ok_or (and_then (checked_sub amount protocol_fee) (λ x. checked_sub x creator_fee))
      (math_error "net amount")

-- The labels of the three errors differ between the sources.
unfoldable pub mint_share : String → String → String → WrapperVault → ℕ → ℕ → Outcome ℕ
mint_share out_of_sync mul_label div_label wv collateral net_amount =
    if wv.wrapper_supply == 0 then ok net_amount else (do
      fail_if (wv.intermediate_held == 0) (math_error out_of_sync)
      prod ← ok_or (checked_mul u128_max collateral wv.wrapper_supply) (math_error mul_label)
      quot ← ok_or (checked_div prod wv.intermediate_held) (math_error div_label)
      u128_to_u64 quot)

unfoldable pub check_mint : ⦃u : Uint⦄ → WrapperVault → ℕ → ℕ → Outcome (Unit {0})
check_mint wv collateral minted = do
  new_intermediate ←
      ok_or (checked_add u128_max wv.intermediate_held collateral) (math_error "new ctokens total")
  new_wrapper_supply ←
      ok_or (checked_add u64_max wv.wrapper_supply minted) (math_error "new supply")
  require_no_value_per_share_loss wv.intermediate_held wv.wrapper_supply new_intermediate
      new_wrapper_supply

unfoldable pub redeem_share : WrapperVault → ℕ → Outcome ℕ
redeem_share wv amount = do
  prod ← ok_or (checked_mul u128_max amount wv.intermediate_held) (math_error "redeem mul")
  quot ← ok_or (checked_div prod wv.wrapper_supply) (math_error "redeem div")
  u128_to_u64 quot

unfoldable pub check_burn : ⦃u : Uint⦄ → WrapperVault → ℕ → ℕ → Outcome (Unit {0})
check_burn wv redeemed burnt = do
  new_intermediate ←
      ok_or (checked_sub wv.intermediate_held redeemed) (math_error "new ctokens total")
  new_wrapper_supply ← ok_or (checked_sub wv.wrapper_supply burnt) (math_error "new supply")
  require_no_value_per_share_loss wv.intermediate_held wv.wrapper_supply new_intermediate
      new_wrapper_supply
