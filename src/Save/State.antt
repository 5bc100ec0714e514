-- ===== src/Save/State.antt =====
-- `src/your_venue/save/state.rs`: the reserve and its decoding.
use overpass_titan_venue.Base.{
  ℕ, List, Pubkey, Outcome, ok, ◌>>=◌, ◌>>◌, fail_if, ltb, length, deserialization_error,
}
use overpass_titan_venue.Common.Bytes.{read_pubkey, read_u64, read_u128, byte_at}

abbrev pub reserve_len : ℕ
reserve_len = 619

pub record SaveState : Type 0 where
  pub last_update_slot : ℕ
  pub lending_market : Pubkey
  pub mint_pubkey : Pubkey
  pub supply_vault : Pubkey
  pub pyth_oracle : Pubkey
  pub switchboard_oracle : Pubkey
  pub available_amount : ℕ
  pub borrowed_amount_wads : ℕ
  pub accumulated_protocol_fees_wads : ℕ
  pub collateral_mint_pubkey : Pubkey
  pub collateral_supply_vault : Pubkey
  pub collateral_mint_total_supply : ℕ
  pub optimal_utilization_rate : ℕ
  pub max_utilization_rate : ℕ
  pub min_borrow_rate : ℕ
  pub optimal_borrow_rate : ℕ
  pub max_borrow_rate : ℕ
  pub super_max_borrow_rate : ℕ
  pub protocol_take_rate : ℕ
  pub deposit_limit : ℕ
  pub extra_oracle_pubkey : Pubkey

unfoldable pub decode : List ℕ → Outcome SaveState
decode bytes = do
  fail_if (ltb (length bytes) reserve_len) (deserialization_error "save reserve: length")
  last_update_slot ← read_u64 bytes 1 "save.last_update.slot"
  lending_market ← read_pubkey bytes 10 "save.lending_market"
  mint_pubkey ← read_pubkey bytes 42 "save.liquidity.mint_pubkey"
  supply_vault ← read_pubkey bytes 75 "save.liquidity.supply_pubkey"
  pyth_oracle ← read_pubkey bytes 107 "save.liquidity.pyth_oracle"
  switchboard_oracle ← read_pubkey bytes 139 "save.liquidity.switchboard_oracle"
  available_amount ← read_u64 bytes 171 "save.liquidity.available_amount"
  borrowed_amount_wads ← read_u128 bytes 179 "save.liquidity.borrowed_amount_wads"
  accumulated_protocol_fees_wads ←
      read_u128 bytes 373 "save.liquidity.accumulated_protocol_fees_wads"
  collateral_mint_pubkey ← read_pubkey bytes 227 "save.collateral.mint_pubkey"
  collateral_supply_vault ← read_pubkey bytes 267 "save.collateral.supply_pubkey"
  collateral_mint_total_supply ← read_u64 bytes 259 "save.collateral.mint_total_supply"
  optimal_utilization_rate ← byte_at bytes 299
  min_borrow_rate ← byte_at bytes 303
  optimal_borrow_rate ← byte_at bytes 304
  max_borrow_rate ← byte_at bytes 305
  deposit_limit ← read_u64 bytes 323 "save.config.deposit_limit"
  protocol_take_rate ← byte_at bytes 372
  max_utilization_rate ← byte_at bytes 470
  super_max_borrow_rate ← read_u64 bytes 471 "save.config.super_max_borrow_rate"
  extra_oracle_pubkey ← read_pubkey bytes 489 "save.config.extra_oracle_pubkey"
  ok (record {
    last_update_slot = last_update_slot;
    lending_market = lending_market;
    mint_pubkey = mint_pubkey;
    supply_vault = supply_vault;
    pyth_oracle = pyth_oracle;
    switchboard_oracle = switchboard_oracle;
    available_amount = available_amount;
    borrowed_amount_wads = borrowed_amount_wads;
    accumulated_protocol_fees_wads = accumulated_protocol_fees_wads;
    collateral_mint_pubkey = collateral_mint_pubkey;
    collateral_supply_vault = collateral_supply_vault;
    collateral_mint_total_supply = collateral_mint_total_supply;
    optimal_utilization_rate = optimal_utilization_rate;
    max_utilization_rate = max_utilization_rate;
    min_borrow_rate = min_borrow_rate;
    optimal_borrow_rate = optimal_borrow_rate;
    max_borrow_rate = max_borrow_rate;
    super_max_borrow_rate = super_max_borrow_rate;
    protocol_take_rate = protocol_take_rate;
    deposit_limit = deposit_limit;
    extra_oracle_pubkey = extra_oracle_pubkey;
  })
