-- ===== src/Kvault/State/Farm.antt =====
-- `src/your_venue/kvault/state.rs`: the farm of the vault's shares and the penalties of its global
-- configuration.
use overpass_titan_venue.Base.{
  ℕ, ◌+◌, ◌%◌, ◌^◌, List, none, some, Outcome, ok, ◌>>=◌, ◌>>◌, ok_or, or_panic, fail_if, ltb, ◌==◌,
  if◌then◌else◌, bytes_eq, length, deserialization_error, math_error, u64_max,
}
use overpass_titan_venue.Uint.{Uint}
use overpass_titan_venue.Common.Bytes.{read_pubkey, read_u64, read_u128}
use overpass_titan_venue.Common.Programs.{default_pubkey}
use overpass_titan_venue.Shares.{and_then}
use overpass_titan_venue.Kvault.State.{FarmStateMinimal}

abbrev farm_off_vault : ℕ
farm_off_vault = 7256

abbrev farm_off_vaults_authority : ℕ
farm_off_vaults_authority = 7288

abbrev farm_off_scope_prices : ℕ
farm_off_scope_prices = 7536

abbrev farm_off_total_staked_amount : ℕ
farm_off_total_staked_amount = 7248

abbrev farm_off_total_active_stake_scaled : ℕ
farm_off_total_active_stake_scaled = 7408

abbrev farm_min_len : ℕ
farm_min_len = farm_off_scope_prices + 32

abbrev kgc_off_withdrawal_penalty_lamports : ℕ
kgc_off_withdrawal_penalty_lamports = 8 + 64

abbrev kgc_off_withdrawal_penalty_bps : ℕ
kgc_off_withdrawal_penalty_bps = 8 + 72

abbrev pub kvault_global_config_len : ℕ
kvault_global_config_len = 8 + 1024

unfoldable pub decode_farm_state_minimal : List ℕ → Outcome FarmStateMinimal
decode_farm_state_minimal bytes = do
  fail_if (ltb (length bytes) farm_min_len) (deserialization_error "kfarms FarmState: length")
  farm_vault ← read_pubkey bytes farm_off_vault "kfarms.farm_vault"
  farm_vaults_authority ← read_pubkey bytes farm_off_vaults_authority "kfarms.farm_vaults_authority"
  scope_raw ← read_pubkey bytes farm_off_scope_prices "kfarms.scope_prices"
  total_active_stake_scaled ←
      read_u128 bytes farm_off_total_active_stake_scaled "kfarms.total_active_stake_scaled"
  total_staked_amount ← read_u64 bytes farm_off_total_staked_amount "kfarms.total_staked_amount"
  ok (record {
    farm_vault = farm_vault;
    farm_vaults_authority = farm_vaults_authority;
    scope_prices = if bytes_eq scope_raw default_pubkey then none else some scope_raw;
    total_active_stake_scaled = total_active_stake_scaled;
    total_staked_amount = total_staked_amount;
  })

abbrev farm_wad : ℕ
farm_wad = 1_000_000_000_000_000_000

-- Each `checked_div` is by a positive number, so that it is the division; its failure is kept.
unfoldable pub convert_stake_to_amount : ⦃u : Uint⦄ → ℕ → ℕ → ℕ → Outcome ℕ
convert_stake_to_amount ⦃u⦄ stake_scaled total_stake_scaled total_amount =
    if stake_scaled == 0 then ok 0 else if total_stake_scaled == 0 then ok total_amount else (do
      result_scaled ←
          ok_or
            (and_then (u.mul? stake_scaled farm_wad)
              (λ x. and_then (u.mul? x total_amount) (λ n. u.div n total_stake_scaled)))
            (math_error "farm convert")
      limit ← or_panic (u.sub (u.shl 1 192) 1)
      fail_if (ltb limit result_scaled) (math_error "farm convert u192")
      amount ← ok_or (u.div result_scaled farm_wad) (math_error "farm convert wad")
      fail_if (ltb u64_max amount) (math_error "farm convert u64")
      ok (amount % 2 ^ 64))

pub record Penalty : Type 0 where
  pub lamports : ℕ
  pub bps : ℕ

unfoldable pub decode_global_config_penalty : List ℕ → Outcome Penalty
decode_global_config_penalty bytes = do
  fail_if (ltb (length bytes) kvault_global_config_len)
      (deserialization_error "kvault global_config: length")
  lamports ←
      read_u64 bytes kgc_off_withdrawal_penalty_lamports "kvault_gc.withdrawal_penalty_lamports"
  bps ← read_u64 bytes kgc_off_withdrawal_penalty_bps "kvault_gc.withdrawal_penalty_bps"
  ok (record { lamports = lamports; bps = bps })
