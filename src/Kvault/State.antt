-- ===== src/Kvault/State.antt =====
-- `src/your_venue/kvault/state.rs`: the vault, its allocations and the farm, and their decoding.
pub mod Farm
use overpass_titan_venue.Base.{
  ℕ, zero, suc, ◌+◌, ◌*◌, ◌^◌, ◌%◌, max, List, [], ◌∷◌, Option, none, some, Pubkey, Outcome, ok,
  ◌>>=◌, ◌>>◌, fail_if, not, ltb, if◌then◌else◌, bytes_eq, take, length, deserialization_error,
  u64_max,
}
use overpass_titan_venue.Common.Bytes.{read_pubkey, read_u64, read_u128}
use overpass_titan_venue.Common.Programs.{spl_token_program_id, default_pubkey}
use overpass_titan_venue.Klend.State.{KlendState}

abbrev pub vault_state_len : ℕ
vault_state_len = 8 + 62544

abbrev pub max_reserves : ℕ
max_reserves = 25

abbrev pub vault_allocation_size : ℕ
vault_allocation_size = 2160

abbrev pub vault_state_discriminator : List ℕ
vault_state_discriminator = 228 ∷ 196 ∷ 82 ∷ 165 ∷ 98 ∷ 210 ∷ 235 ∷ 152 ∷ []

abbrev off_token_mint : ℕ
off_token_mint = 8 + 72

abbrev off_token_mint_decimals : ℕ
off_token_mint_decimals = 8 + 104

abbrev off_token_vault : ℕ
off_token_vault = 8 + 112

abbrev off_shares_mint : ℕ
off_shares_mint = 8 + 176

abbrev off_token_available : ℕ
off_token_available = 8 + 216

abbrev off_shares_issued : ℕ
off_shares_issued = 8 + 224

abbrev off_crank_fund_fee : ℕ
off_crank_fund_fee = 8 + 58432

abbrev off_performance_fee_bps : ℕ
off_performance_fee_bps = 8 + 248

abbrev off_management_fee_bps : ℕ
off_management_fee_bps = 8 + 256

abbrev off_last_fee_charge_timestamp : ℕ
off_last_fee_charge_timestamp = 8 + 264

abbrev off_prev_aum_sf : ℕ
off_prev_aum_sf = 8 + 272

abbrev off_pending_fees_sf : ℕ
off_pending_fees_sf = 8 + 288

abbrev off_vault_allocation_strategy : ℕ
off_vault_allocation_strategy = 8 + 304

abbrev off_min_deposit_amount : ℕ
off_min_deposit_amount = 8 + 58400

abbrev off_min_withdraw_amount : ℕ
off_min_withdraw_amount = 8 + 58408

abbrev off_base_vault_authority : ℕ
off_base_vault_authority = 8 + 32

abbrev off_withdrawal_penalty_lamports : ℕ
off_withdrawal_penalty_lamports = 8 + 58672

abbrev off_withdrawal_penalty_bps : ℕ
off_withdrawal_penalty_bps = 8 + 58680

abbrev off_deposit_cap : ℕ
off_deposit_cap = 8 + 58728

abbrev alloc_off_reserve : ℕ
alloc_off_reserve = 0

abbrev alloc_off_ctoken_vault : ℕ
alloc_off_ctoken_vault = 32

abbrev alloc_off_target_allocation_weight : ℕ
alloc_off_target_allocation_weight = 64

abbrev alloc_off_token_allocation_cap : ℕ
alloc_off_token_allocation_cap = 72

abbrev alloc_off_ctoken_allocation : ℕ
alloc_off_ctoken_allocation = 1104

pub record ActiveAllocation : Type 0 where
  pub reserve : Pubkey
  pub ctoken_vault : Pubkey
  pub target_allocation_weight : ℕ
  pub token_allocation_cap : ℕ
  pub ctoken_allocation : ℕ
  pub slot_index : ℕ

pub record FarmStateMinimal : Type 0 where
  pub farm_vault : Pubkey
  pub farm_vaults_authority : Pubkey
  pub scope_prices : Option Pubkey
  pub total_active_stake_scaled : ℕ
  pub total_staked_amount : ℕ

pub record KvaultState : Type 0 where
  pub token_mint : Pubkey
  pub token_mint_decimals : ℕ
  pub token_vault : Pubkey
  pub shares_mint : Pubkey
  pub base_vault_authority : Pubkey
  pub token_available : ℕ
  pub shares_issued : ℕ
  pub crank_fund_fee_per_reserve : ℕ
  pub performance_fee_bps : ℕ
  pub management_fee_bps : ℕ
  pub last_fee_charge_timestamp : ℕ
  pub prev_aum_sf : ℕ
  pub pending_fees_sf : ℕ
  pub min_deposit_amount : ℕ
  pub min_withdraw_amount : ℕ
  pub vault_withdrawal_penalty_lamports : ℕ
  pub vault_withdrawal_penalty_bps : ℕ
  pub active_allocations : List ActiveAllocation
  pub global_withdrawal_penalty_lamports : ℕ
  pub global_withdrawal_penalty_bps : ℕ
  pub cached_reserves : List (Pubkey × KlendState)
  pub cached_farm_state : Option FarmStateMinimal
  pub underlying_token_program : Pubkey
  pub position_kvault_shares : ℕ
  pub cached_aum_sf : Option ℕ
  pub cached_max_deposit : ℕ
  pub deposit_cap : ℕ

-- The loop over the slots of the strategy, with how many are left and the index of the next.
unfoldable pub read_allocations : ℕ → ℕ → List ℕ → Outcome (List ActiveAllocation)
read_allocations zero i bytes = ok []
read_allocations (suc n) i bytes = do
  let base = off_vault_allocation_strategy + i * vault_allocation_size
  let rest = read_allocations n (suc i) bytes
  reserve ← read_pubkey bytes (base + alloc_off_reserve) "kvault.allocation.reserve"
  if bytes_eq reserve default_pubkey then rest else (do
    ctoken_vault ←
        read_pubkey bytes (base + alloc_off_ctoken_vault) "kvault.allocation.ctoken_vault"
    target_allocation_weight ←
        read_u64 bytes (base + alloc_off_target_allocation_weight) "kvault.allocation.target_weight"
    token_allocation_cap ←
        read_u64 bytes (base + alloc_off_token_allocation_cap) "kvault.allocation.token_cap"
    ctoken_allocation ←
        read_u64 bytes (base + alloc_off_ctoken_allocation) "kvault.allocation.ctoken_allocation"
    others ← rest
    ok (
        record {
          reserve = reserve;
          ctoken_vault = ctoken_vault;
          target_allocation_weight = target_allocation_weight;
          token_allocation_cap = token_allocation_cap;
          ctoken_allocation = ctoken_allocation;
          slot_index = i;
        }
        ∷ others))

unfoldable pub decode : List ℕ → Outcome KvaultState
unfolding read_allocations
decode bytes = do
  fail_if (ltb (length bytes) vault_state_len) (deserialization_error "kvault state: length")
  fail_if (not (bytes_eq (take 8 bytes) vault_state_discriminator))
      (deserialization_error "kvault state: discriminator")
  token_mint ← read_pubkey bytes off_token_mint "kvault.token_mint"
  raw_decimals ← read_u64 bytes off_token_mint_decimals "kvault.token_mint_decimals"
  token_vault ← read_pubkey bytes off_token_vault "kvault.token_vault"
  shares_mint ← read_pubkey bytes off_shares_mint "kvault.shares_mint"
  base_vault_authority ← read_pubkey bytes off_base_vault_authority "kvault.base_vault_authority"
  token_available ← read_u64 bytes off_token_available "kvault.token_available"
  shares_issued ← read_u64 bytes off_shares_issued "kvault.shares_issued"
  crank_fund_fee_per_reserve ← read_u64 bytes off_crank_fund_fee "kvault.crank_fund_fee"
  performance_fee_bps ← read_u64 bytes off_performance_fee_bps "kvault.performance_fee_bps"
  management_fee_bps ← read_u64 bytes off_management_fee_bps "kvault.management_fee_bps"
  last_fee_charge_timestamp ←
      read_u64 bytes off_last_fee_charge_timestamp "kvault.last_fee_charge_timestamp"
  prev_aum_sf ← read_u128 bytes off_prev_aum_sf "kvault.prev_aum_sf"
  pending_fees_sf ← read_u128 bytes off_pending_fees_sf "kvault.pending_fees_sf"
  min_deposit_amount ← read_u64 bytes off_min_deposit_amount "kvault.min_deposit_amount"
  min_withdraw_amount ← read_u64 bytes off_min_withdraw_amount "kvault.min_withdraw_amount"
  vault_withdrawal_penalty_lamports ←
      read_u64 bytes off_withdrawal_penalty_lamports "kvault.withdrawal_penalty_lamports"
  vault_withdrawal_penalty_bps ←
      read_u64 bytes off_withdrawal_penalty_bps "kvault.withdrawal_penalty_bps"
  deposit_cap ← read_u64 bytes off_deposit_cap "kvault.deposit_cap"
  active_allocations ← read_allocations max_reserves 0 bytes
  ok (record {
    token_mint = token_mint;
    token_mint_decimals = raw_decimals % 2 ^ 8;
    token_vault = token_vault;
    shares_mint = shares_mint;
    base_vault_authority = base_vault_authority;
    token_available = token_available;
    shares_issued = shares_issued;
    crank_fund_fee_per_reserve = crank_fund_fee_per_reserve;
    performance_fee_bps = performance_fee_bps;
    management_fee_bps = management_fee_bps;
    last_fee_charge_timestamp = last_fee_charge_timestamp;
    prev_aum_sf = prev_aum_sf;
    pending_fees_sf = pending_fees_sf;
    min_deposit_amount = min_deposit_amount;
    min_withdraw_amount = min_withdraw_amount;
    vault_withdrawal_penalty_lamports = vault_withdrawal_penalty_lamports;
    vault_withdrawal_penalty_bps = vault_withdrawal_penalty_bps;
    active_allocations = active_allocations;
    global_withdrawal_penalty_lamports = 0;
    global_withdrawal_penalty_bps = 0;
    cached_reserves = [];
    cached_farm_state = none;
    underlying_token_program = spl_token_program_id;
    position_kvault_shares = 0;
    cached_aum_sf = none;
    cached_max_deposit = u64_max;
    deposit_cap = deposit_cap;
  })

module _ (state : KvaultState) where
  abbrev pub prev_aum : ℕ
  prev_aum = state.prev_aum_sf

  abbrev pub pending_fees : ℕ
  pending_fees = state.pending_fees_sf

  abbrev pub effective_penalty_lamports : ℕ
  effective_penalty_lamports =
      max state.vault_withdrawal_penalty_lamports state.global_withdrawal_penalty_lamports

  abbrev pub effective_penalty_bps : ℕ
  effective_penalty_bps = max state.vault_withdrawal_penalty_bps state.global_withdrawal_penalty_bps
