-- ===== src/TradingVenue.antt =====
-- `src/trading_venue/mod.rs`: the request and the result of a quote. `F` stands for `f64`.
pub mod Methods
use overpass_titan_venue.Base.{ℕ, Bool, Pubkey}

pub data SwapType : Type 0 where
  exact_in exact_out : SwapType

pub record QuoteRequest : Type 0 where
  pub input_mint : Pubkey
  pub output_mint : Pubkey
  pub amount : ℕ
  pub swap_type : SwapType

pub record QuoteResult (F : Type 0) : Type 0 where
  pub input_mint : Pubkey
  pub output_mint : Pubkey
  pub amount : ℕ
  pub expected_output : ℕ
  pub not_enough_liquidity : Bool
  pub price : F
