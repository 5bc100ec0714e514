-- ===== src/Klend/State.antt =====
-- `src/your_venue/klend/state.rs`: the reserve and its decoding.
use overpass_titan_venue.Base.{
  ℕ, Bool, not, List, [], ◌∷◌, Pubkey, Outcome, ok, ◌>>=◌, ◌>>◌, fail_if, ltb, ◌==◌, bytes_eq, take,
  drop, length, deserialization_error,
}
use overpass_titan_venue.Common.Bytes.{read_pubkey, read_u64, read_u128, byte_at, from_le_bytes}
use overpass_titan_venue.Klend.Caps.{WithdrawalCaps, decode_caps}

abbrev pub reserve_len : ℕ
reserve_len = 8624

abbrev pub reserve_discriminator : List ℕ
reserve_discriminator = 43 ∷ 242 ∷ 204 ∷ 202 ∷ 26 ∷ 247 ∷ 59 ∷ 127 ∷ []

abbrev pub borrow_rate_curve_len : ℕ
borrow_rate_curve_len = 88

pub record KlendState : Type 0 where
  pub version : ℕ
  pub last_update_slot : ℕ
  pub last_update_timestamp : ℕ
  pub lending_market : Pubkey
  pub mint_pubkey : Pubkey
  pub supply_vault : Pubkey
  pub total_available_amount : ℕ
  pub borrowed_amount_sf : ℕ
  pub market_price_last_updated_ts : ℕ
  pub mint_decimals : ℕ
  pub cumulative_borrow_rate_bsf : List ℕ
  pub accumulated_protocol_fees_sf : ℕ
  pub accumulated_referrer_fees_sf : ℕ
  pub pending_referrer_fees_sf : ℕ
  pub absolute_referral_rate_sf : ℕ
  pub liquidity_token_program : Pubkey
  pub collateral_mint_pubkey : Pubkey
  pub collateral_mint_total_supply : ℕ
  pub status : ℕ
  pub block_ctoken_usage : Bool
  pub emergency_mode : Bool
  pub host_fixed_interest_rate_bps : ℕ
  pub protocol_take_rate_pct : ℕ
  pub interest_rate_basis : ℕ
  pub borrow_rate_curve : List ℕ
  pub deposit_limit : ℕ
  pub max_age_price_seconds : ℕ
  pub deposit_withdrawal_cap : WithdrawalCaps
  pub debt_withdrawal_cap : WithdrawalCaps
  pub queued_collateral_amount : ℕ
  pub scope_price_feed : Pubkey
  pub switchboard_price_aggregator : Pubkey
  pub switchboard_twap_aggregator : Pubkey
  pub pyth_price : Pubkey

-- The slices and indices without a check of their own are in range after the check of the length.
unfoldable pub decode : List ℕ → Outcome KlendState
decode bytes = do
  fail_if (ltb (length bytes) reserve_len) (deserialization_error "klend reserve: length")
  fail_if (not (bytes_eq (take 8 bytes) reserve_discriminator))
      (deserialization_error "klend reserve: discriminator")
  version ← read_u64 bytes 8 "klend.version"
  last_update_slot ← read_u64 bytes 16 "klend.last_update.slot"
  let last_update_timestamp = from_le_bytes (take 4 (drop 28 bytes))
  lending_market ← read_pubkey bytes 32 "klend.lending_market"
  mint_pubkey ← read_pubkey bytes 128 "klend.liquidity.mint_pubkey"
  supply_vault ← read_pubkey bytes 160 "klend.liquidity.supply_vault"
  total_available_amount ← read_u64 bytes 224 "klend.total_available_amount"
  borrowed_amount_sf ← read_u128 bytes 232 "klend.borrowed_amount_sf"
  market_price_last_updated_ts ← read_u64 bytes 264 "klend.market_price_last_updated_ts"
  mint_decimals ← read_u64 bytes 272 "klend.mint_decimals"
  rate_0 ← read_u64 bytes 296 "klend.cumulative_borrow_rate_bsf"
  rate_1 ← read_u64 bytes 304 "klend.cumulative_borrow_rate_bsf"
  rate_2 ← read_u64 bytes 312 "klend.cumulative_borrow_rate_bsf"
  rate_3 ← read_u64 bytes 320 "klend.cumulative_borrow_rate_bsf"
  rate_4 ← read_u64 bytes 328 "klend.cumulative_borrow_rate_bsf"
  rate_5 ← read_u64 bytes 336 "klend.cumulative_borrow_rate_bsf"
  accumulated_protocol_fees_sf ← read_u128 bytes 344 "klend.accumulated_protocol_fees_sf"
  accumulated_referrer_fees_sf ← read_u128 bytes 360 "klend.accumulated_referrer_fees_sf"
  pending_referrer_fees_sf ← read_u128 bytes 376 "klend.pending_referrer_fees_sf"
  absolute_referral_rate_sf ← read_u128 bytes 392 "klend.absolute_referral_rate_sf"
  liquidity_token_program ← read_pubkey bytes 408 "klend.liquidity.token_program"
  collateral_mint_pubkey ← read_pubkey bytes 2560 "klend.collateral.mint_pubkey"
  collateral_mint_total_supply ← read_u64 bytes 2592 "klend.collateral.mint_total_supply"
  status ← byte_at bytes 4856
  let host_fixed_interest_rate_bps = from_le_bytes (take 2 (drop 4858 bytes))
  block_ctoken_usage ← byte_at bytes 4862
  emergency_mode ← byte_at bytes 4864
  interest_rate_basis ← byte_at bytes 4865
  protocol_take_rate_pct ← byte_at bytes 4870
  let borrow_rate_curve = take borrow_rate_curve_len (drop 4920 bytes)
  deposit_limit ← read_u64 bytes 5016 "klend.config.deposit_limit"
  max_age_price_seconds ← read_u64 bytes 5096 "klend.token_info.max_age_price_seconds"
  scope_price_feed ← read_pubkey bytes 5112 "klend.token_info.scope_price_feed"
  switchboard_price_aggregator ←
      read_pubkey bytes 5160 "klend.token_info.switchboard_price_aggregator"
  switchboard_twap_aggregator ←
      read_pubkey bytes 5192 "klend.token_info.switchboard_twap_aggregator"
  pyth_price ← read_pubkey bytes 5224 "klend.token_info.pyth_price"
  deposit_withdrawal_cap ← decode_caps (take 32 (drop 5416 bytes))
  debt_withdrawal_cap ← decode_caps (take 32 (drop 5448 bytes))
  queued_collateral_amount ← read_u64 bytes 6968 "klend.withdraw_queue.queued_collateral_amount"
  ok (record {
    version = version;
    last_update_slot = last_update_slot;
    last_update_timestamp = last_update_timestamp;
    lending_market = lending_market;
    mint_pubkey = mint_pubkey;
    supply_vault = supply_vault;
    total_available_amount = total_available_amount;
    borrowed_amount_sf = borrowed_amount_sf;
    market_price_last_updated_ts = market_price_last_updated_ts;
    mint_decimals = mint_decimals;
    cumulative_borrow_rate_bsf = rate_0 ∷ rate_1 ∷ rate_2 ∷ rate_3 ∷ rate_4 ∷ rate_5 ∷ [];
    accumulated_protocol_fees_sf = accumulated_protocol_fees_sf;
    accumulated_referrer_fees_sf = accumulated_referrer_fees_sf;
    pending_referrer_fees_sf = pending_referrer_fees_sf;
    absolute_referral_rate_sf = absolute_referral_rate_sf;
    liquidity_token_program = liquidity_token_program;
    collateral_mint_pubkey = collateral_mint_pubkey;
    collateral_mint_total_supply = collateral_mint_total_supply;
    status = status;
    block_ctoken_usage = not (block_ctoken_usage == 0);
    emergency_mode = not (emergency_mode == 0);
    host_fixed_interest_rate_bps = host_fixed_interest_rate_bps;
    protocol_take_rate_pct = protocol_take_rate_pct;
    interest_rate_basis = interest_rate_basis;
    borrow_rate_curve = borrow_rate_curve;
    deposit_limit = deposit_limit;
    max_age_price_seconds = max_age_price_seconds;
    deposit_withdrawal_cap = deposit_withdrawal_cap;
    debt_withdrawal_cap = debt_withdrawal_cap;
    queued_collateral_amount = queued_collateral_amount;
    scope_price_feed = scope_price_feed;
    switchboard_price_aggregator = switchboard_price_aggregator;
    switchboard_twap_aggregator = switchboard_twap_aggregator;
    pyth_price = pyth_price;
  })
