-- ===== src/Marginfi/State.antt =====
-- `src/your_venue/marginfi/state.rs`: the bank and its decoding. A signed fraction is its bits.
pub mod Account
use overpass_titan_venue.Base.{
  ℕ, zero, suc, ◌+◌, ◌*◌, Bool, false, not, List, [], ◌∷◌, Pubkey, Outcome, ok, err, ◌>>=◌, ◌>>◌,
  fail_if, ltb, bytes_eq, take, length, deserialization_error,
}
use overpass_titan_venue.Int.{ℤ, pos, to_i64, to_i128}
use overpass_titan_venue.Common.Bytes.{read_pubkey, read_u32, read_u64, read_u128, byte_at}
use overpass_titan_venue.Common.Programs.{spl_token_program_id}

pub data BankOperationalState : Type 0 where
  paused operational reduce_only killed_by_bankruptcy : BankOperationalState

-- `BankOperationalState::from_u8`.
unfoldable pub from_u8 : ℕ → Outcome BankOperationalState
from_u8 zero = ok paused
from_u8 (suc zero) = ok operational
from_u8 (suc (suc zero)) = ok reduce_only
from_u8 (suc (suc (suc zero))) = ok killed_by_bankruptcy
from_u8 (suc (suc (suc (suc n)))) = err (deserialization_error "marginfi: bad operational_state")

abbrev pub interest_curve_legacy : ℕ
interest_curve_legacy = 0

abbrev pub interest_curve_seven_point : ℕ
interest_curve_seven_point = 1

pub record RatePoint : Type 0 where
  pub util : ℕ
  pub rate : ℕ

pub record InterestRateConfig : Type 0 where
  pub optimal_utilization_rate : ℤ
  pub plateau_interest_rate : ℤ
  pub max_interest_rate : ℤ
  pub insurance_fee_fixed_apr : ℤ
  pub insurance_ir_fee : ℤ
  pub protocol_fixed_fee_apr : ℤ
  pub protocol_ir_fee : ℤ
  pub zero_util_rate : ℕ
  pub hundred_util_rate : ℕ
  pub points : List RatePoint
  pub curve_type : ℕ

pub record MarginfiState : Type 0 where
  pub mint : Pubkey
  pub mint_decimals : ℕ
  pub asset_share_value : ℤ
  pub liability_share_value : ℤ
  pub liquidity_vault : Pubkey
  pub total_liability_shares : ℤ
  pub total_asset_shares : ℤ
  pub last_update : ℤ
  pub deposit_limit : ℕ
  pub operational_state : BankOperationalState
  pub asset_tag : ℕ
  pub cached_lending_rate : ℕ
  pub cached_user_asset_shares : ℤ
  pub underlying_token_program : Pubkey
  pub oracle_setup : ℕ
  pub oracle_keys : List Pubkey
  pub interest_rate_config : InterestRateConfig
  pub group_program_fees_enabled : Bool
  pub group_program_fee_fixed : ℤ
  pub group_program_fee_rate : ℤ

abbrev pub bank_len : ℕ
bank_len = 1864

abbrev pub bank_discriminator : List ℕ
bank_discriminator = 142 ∷ 49 ∷ 166 ∷ 242 ∷ 50 ∷ 66 ∷ 97 ∷ 188 ∷ []

abbrev off_mint : ℕ
off_mint = 8

abbrev off_mint_decimals : ℕ
off_mint_decimals = 40

abbrev off_asset_share_value : ℕ
off_asset_share_value = 80

abbrev off_liability_share_value : ℕ
off_liability_share_value = 96

abbrev off_liquidity_vault : ℕ
off_liquidity_vault = 112

abbrev off_total_liability_shares : ℕ
off_total_liability_shares = 256

abbrev off_total_asset_shares : ℕ
off_total_asset_shares = 272

abbrev off_last_update : ℕ
off_last_update = 288

abbrev off_config_deposit_limit : ℕ
off_config_deposit_limit = 360

abbrev off_ir_optimal_util_rate : ℕ
off_ir_optimal_util_rate = 368

abbrev off_ir_plateau_rate : ℕ
off_ir_plateau_rate = 384

abbrev off_ir_max_rate : ℕ
off_ir_max_rate = 400

abbrev off_ir_insurance_fixed_apr : ℕ
off_ir_insurance_fixed_apr = 416

abbrev off_ir_insurance_ir_fee : ℕ
off_ir_insurance_ir_fee = 432

abbrev off_ir_protocol_fixed_apr : ℕ
off_ir_protocol_fixed_apr = 448

abbrev off_ir_protocol_ir_fee : ℕ
off_ir_protocol_ir_fee = 464

abbrev off_ir_zero_util_rate : ℕ
off_ir_zero_util_rate = 496

abbrev off_ir_hundred_util_rate : ℕ
off_ir_hundred_util_rate = 500

abbrev off_ir_points : ℕ
off_ir_points = 504

abbrev off_ir_curve_type : ℕ
off_ir_curve_type = 544

abbrev off_config_operational_state : ℕ
off_config_operational_state = 608

abbrev off_config_oracle_setup : ℕ
off_config_oracle_setup = 609

abbrev off_config_oracle_keys : ℕ
off_config_oracle_keys = 610

abbrev off_config_asset_tag : ℕ
off_config_asset_tag = 785

abbrev off_cache_lending_rate : ℕ
off_cache_lending_rate = 1380

unfoldable pub remaining_accounts_per_bank : ℕ → ℕ
remaining_accounts_per_bank zero = 1
remaining_accounts_per_bank (suc zero) = 2
remaining_accounts_per_bank (suc (suc zero)) = 2
remaining_accounts_per_bank (suc (suc (suc zero))) = 2
remaining_accounts_per_bank (suc (suc (suc (suc zero)))) = 2
remaining_accounts_per_bank (suc (suc (suc (suc (suc zero))))) = 4
remaining_accounts_per_bank (suc (suc (suc (suc (suc (suc zero)))))) = 2
remaining_accounts_per_bank (suc (suc (suc (suc (suc (suc (suc n))))))) = 1

unfoldable pub read_wrapped_i80f48 : List ℕ → ℕ → Outcome ℤ
unfolding to_i128
read_wrapped_i80f48 bytes offset = do
  bits ← read_u128 bytes offset "WrappedI80F48"
  ok (to_i128 bits)

-- The loop over the points, with how many are left and the offset of the next.
unfoldable pub read_rate_points : ℕ → List ℕ → ℕ → Outcome (List RatePoint)
read_rate_points zero bytes base = ok []
read_rate_points (suc n) bytes base = do
  util ← read_u32 bytes base "marginfi.ir.points.util"
  rate ← read_u32 bytes (base + 4) "marginfi.ir.points.rate"
  others ← read_rate_points n bytes (base + 8)
  ok (record { util = util; rate = rate } ∷ others)

-- The loop over the keys of the oracle, likewise.
unfoldable pub read_oracle_keys : ℕ → List ℕ → ℕ → Outcome (List Pubkey)
read_oracle_keys zero bytes base = ok []
read_oracle_keys (suc n) bytes base = do
  key ← read_pubkey bytes base "marginfi.config.oracle_keys"
  others ← read_oracle_keys n bytes (base + 32)
  ok (key ∷ others)

unfoldable pub read_interest_rate_config : List ℕ → Outcome InterestRateConfig
unfolding read_rate_points read_wrapped_i80f48
read_interest_rate_config bytes = do
  optimal_utilization_rate ← read_wrapped_i80f48 bytes off_ir_optimal_util_rate
  plateau_interest_rate ← read_wrapped_i80f48 bytes off_ir_plateau_rate
  max_interest_rate ← read_wrapped_i80f48 bytes off_ir_max_rate
  insurance_fee_fixed_apr ← read_wrapped_i80f48 bytes off_ir_insurance_fixed_apr
  insurance_ir_fee ← read_wrapped_i80f48 bytes off_ir_insurance_ir_fee
  protocol_fixed_fee_apr ← read_wrapped_i80f48 bytes off_ir_protocol_fixed_apr
  protocol_ir_fee ← read_wrapped_i80f48 bytes off_ir_protocol_ir_fee
  zero_util_rate ← read_u32 bytes off_ir_zero_util_rate "marginfi.ir.zero_util_rate"
  hundred_util_rate ← read_u32 bytes off_ir_hundred_util_rate "marginfi.ir.hundred_util_rate"
  points ← read_rate_points 5 bytes off_ir_points
  curve_type ← byte_at bytes off_ir_curve_type
  ok (record {
    optimal_utilization_rate = optimal_utilization_rate;
    plateau_interest_rate = plateau_interest_rate;
    max_interest_rate = max_interest_rate;
    insurance_fee_fixed_apr = insurance_fee_fixed_apr;
    insurance_ir_fee = insurance_ir_fee;
    protocol_fixed_fee_apr = protocol_fixed_fee_apr;
    protocol_ir_fee = protocol_ir_fee;
    zero_util_rate = zero_util_rate;
    hundred_util_rate = hundred_util_rate;
    points = points;
    curve_type = curve_type;
  })

unfoldable pub decode : List ℕ → Outcome MarginfiState
unfolding read_interest_rate_config read_oracle_keys read_wrapped_i80f48 from_u8 to_i64
decode bytes = do
  fail_if (ltb (length bytes) bank_len) (deserialization_error "marginfi bank: length")
  fail_if (not (bytes_eq (take 8 bytes) bank_discriminator))
      (deserialization_error "marginfi bank: discriminator")
  mint ← read_pubkey bytes off_mint "marginfi.mint"
  mint_decimals ← byte_at bytes off_mint_decimals
  asset_share_value ← read_wrapped_i80f48 bytes off_asset_share_value
  liability_share_value ← read_wrapped_i80f48 bytes off_liability_share_value
  liquidity_vault ← read_pubkey bytes off_liquidity_vault "marginfi.liquidity_vault"
  total_liability_shares ← read_wrapped_i80f48 bytes off_total_liability_shares
  total_asset_shares ← read_wrapped_i80f48 bytes off_total_asset_shares
  last_update ← read_u64 bytes off_last_update "marginfi.last_update"
  deposit_limit ← read_u64 bytes off_config_deposit_limit "marginfi.deposit_limit"
  state_byte ← byte_at bytes off_config_operational_state
  operational_state ← from_u8 state_byte
  asset_tag ← byte_at bytes off_config_asset_tag
  cached_lending_rate ← read_u32 bytes off_cache_lending_rate "marginfi.cache.lending_rate"
  oracle_setup ← byte_at bytes off_config_oracle_setup
  oracle_keys ← read_oracle_keys 5 bytes off_config_oracle_keys
  interest_rate_config ← read_interest_rate_config bytes
  ok (record {
    mint = mint;
    mint_decimals = mint_decimals;
    asset_share_value = asset_share_value;
    liability_share_value = liability_share_value;
    liquidity_vault = liquidity_vault;
    total_liability_shares = total_liability_shares;
    total_asset_shares = total_asset_shares;
    last_update = to_i64 last_update;
    deposit_limit = deposit_limit;
    operational_state = operational_state;
    asset_tag = asset_tag;
    cached_lending_rate = cached_lending_rate;
    cached_user_asset_shares = pos 0;
    underlying_token_program = spl_token_program_id;
    oracle_setup = oracle_setup;
    oracle_keys = oracle_keys;
    interest_rate_config = interest_rate_config;
    group_program_fees_enabled = false;
    group_program_fee_fixed = pos 0;
    group_program_fee_rate = pos 0;
  })
