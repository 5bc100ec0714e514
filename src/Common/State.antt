-- ===== src/Common/State.antt =====
-- `src/your_venue/state.rs`: the wrapper vault, the global configuration and their decoding.
use overpass_titan_venue.Base.{
  ℕ, zero, suc, Bool, not, List, [], ◌∷◌, Pubkey, Outcome, ok, err, ◌>>=◌, ◌>>◌, fail_if, ltb, ◌==◌,
  bytes_eq, take, drop, length, deserialization_error, unsupported_venue, static_str,
}
use overpass_titan_venue.Common.Bytes.{read_pubkey, read_u16, read_u64, read_u128, byte_at}

pub record WrapperVault : Type 0 where
  pub version : ℕ
  pub bump : ℕ
  pub vault_authority_bump : ℕ
  pub protocol : ℕ
  pub creation_timestamp : ℕ
  pub creator : Pubkey
  pub wrapper_mint : Pubkey
  pub underlying_mint : Pubkey
  pub source_pool : Pubkey
  pub source_position_pda : Pubkey
  pub creator_deposit_fee_bps : ℕ
  pub intermediate_held : ℕ
  pub free_underlying_held : ℕ
  pub accumulated_creator_fees : ℕ
  pub accumulated_protocol_fees : ℕ
  pub wrapper_supply : ℕ
  pub protocol_data : List ℕ

pub data ProtocolId : Type 0 where
  kvault klend save lulo marginfi : ProtocolId

pub from_byte : ℕ → Outcome ProtocolId
from_byte zero = ok kvault
from_byte (suc zero) = ok klend
from_byte (suc (suc zero)) = ok save
from_byte (suc (suc (suc zero))) = ok lulo
from_byte (suc (suc (suc (suc zero)))) = ok marginfi
from_byte (suc (suc (suc (suc (suc n))))) =
    err (unsupported_venue (static_str "unknown protocol byte"))

abbrev pub wrapper_vault_len : ℕ
wrapper_vault_len = 558

abbrev pub wrapper_vault_version : ℕ
wrapper_vault_version = 1

abbrev pub wrapper_vault_discriminator : List ℕ
wrapper_vault_discriminator = 103 ∷ 101 ∷ 152 ∷ 26 ∷ 112 ∷ 217 ∷ 184 ∷ 219 ∷ []

-- A read past the end by index or slice is a panic.
pub decode_wrapper_vault : List ℕ → Outcome WrapperVault
decode_wrapper_vault bytes = do
  fail_if (ltb (length bytes) wrapper_vault_len) (deserialization_error "wrapper_vault: length")
  fail_if (not (bytes_eq (take 8 bytes) wrapper_vault_discriminator))
      (deserialization_error "wrapper_vault: discriminator")
  version ← byte_at bytes 8
  fail_if (not (version == wrapper_vault_version))
      (deserialization_error "unsupported wrapper_vault version")
  bump ← byte_at bytes 9
  vault_authority_bump ← byte_at bytes 10
  protocol ← byte_at bytes 11
  creation_timestamp ← read_u64 bytes 12 "wrapper_vault.creation_timestamp"
  creator ← read_pubkey bytes 20 "wrapper_vault.creator"
  wrapper_mint ← read_pubkey bytes 52 "wrapper_vault.wrapper_mint"
  underlying_mint ← read_pubkey bytes 84 "wrapper_vault.underlying_mint"
  source_pool ← read_pubkey bytes 116 "wrapper_vault.source_pool"
  source_position_pda ← read_pubkey bytes 148 "wrapper_vault.source_position_pda"
  creator_deposit_fee_bps ← read_u16 bytes 180 "wrapper_vault.creator_deposit_fee_bps"
  intermediate_held ← read_u128 bytes 182 "wrapper_vault.intermediate_held"
  free_underlying_held ← read_u64 bytes 198 "wrapper_vault.free_underlying_held"
  accumulated_creator_fees ← read_u64 bytes 206 "wrapper_vault.accumulated_creator_fees"
  accumulated_protocol_fees ← read_u64 bytes 214 "wrapper_vault.accumulated_protocol_fees"
  wrapper_supply ← read_u64 bytes 222 "wrapper_vault.wrapper_supply"
  ok (record {
    version = version;
    bump = bump;
    vault_authority_bump = vault_authority_bump;
    protocol = protocol;
    creation_timestamp = creation_timestamp;
    creator = creator;
    wrapper_mint = wrapper_mint;
    underlying_mint = underlying_mint;
    source_pool = source_pool;
    source_position_pda = source_position_pda;
    creator_deposit_fee_bps = creator_deposit_fee_bps;
    intermediate_held = intermediate_held;
    free_underlying_held = free_underlying_held;
    accumulated_creator_fees = accumulated_creator_fees;
    accumulated_protocol_fees = accumulated_protocol_fees;
    wrapper_supply = wrapper_supply;
    protocol_data = take 200 (drop 230 bytes);
  })

abbrev pub global_config_len : ℕ
global_config_len = 150

abbrev pub global_config_discriminator : List ℕ
global_config_discriminator = 149 ∷ 8 ∷ 156 ∷ 202 ∷ 160 ∷ 252 ∷ 176 ∷ 217 ∷ []

pub record GlobalConfig : Type 0 where
  pub paused : Bool
  pub protocol_deposit_fee_bps : ℕ

pub decode_global_config : List ℕ → Outcome GlobalConfig
decode_global_config bytes = do
  fail_if (ltb (length bytes) global_config_len) (deserialization_error "global_config: length")
  fail_if (not (bytes_eq (take 8 bytes) global_config_discriminator))
      (deserialization_error "global_config: discriminator")
  paused ← byte_at bytes 9
  protocol_deposit_fee_bps ← read_u16 bytes 82 "global_config.protocol_deposit_fee_bps"
  ok (record { paused = not (paused == 0); protocol_deposit_fee_bps = protocol_deposit_fee_bps })
