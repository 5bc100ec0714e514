-- ===== src/TradingVenue/Methods.antt =====
-- `src/trading_venue/token_info.rs`, and the default methods of the trait `TradingVenue` of
-- `src/trading_venue/mod.rs`, on the tokens and the quote of a venue.
use overpass_titan_venue.Base.{
  ℕ, zero, suc, Bool, List, [], ◌∷◌, ◌++◌, Option, Pubkey, Outcome, ◌>>=◌, ok_or, ◌==◌, get_elem?,
  length, min, if◌then◌else◌, token_info_index_error,
}
use overpass_titan_venue.Int.{ℤ}
use overpass_titan_venue.TradingVenue.{QuoteRequest, QuoteResult, exact_in}
use overpass_titan_venue.Common.Programs.{spl_token_program_id, token_2022_program_id}
use overpass_titan_venue.Bounds.{find_boundaries}

pub record TokenInfo : Type 0 where
  pub pubkey : Pubkey
  pub decimals : ℤ
  pub is_token_2022 : Bool
  pub transfer_fee : Option ℕ
  pub maximum_fee : Option ℕ

unfoldable pub get_token_program : TokenInfo → Pubkey
get_token_program info = if info.is_token_2022 then token_2022_program_id else spl_token_program_id

unfoldable pub tradable_mints : List TokenInfo → List Pubkey
tradable_mints [] = []
tradable_mints (info ∷ infos) = info.pubkey ∷ tradable_mints infos

unfoldable pub token_decimals : List TokenInfo → List ℤ
token_decimals [] = []
token_decimals (info ∷ infos) = info.decimals ∷ token_decimals infos

unfoldable pub get_token : List TokenInfo → ℕ → Outcome TokenInfo
get_token infos i = ok_or (get_elem? infos i) (token_info_index_error i)

-- The quote is that of the venue, at two mints and an amount.
unfoldable pub bounds :
    {F : Type 0}
    → List TokenInfo
    → (QuoteRequest → Outcome (QuoteResult F))
    → ℕ
    → ℕ
    → Outcome (ℕ × ℕ)
unfolding get_token
bounds infos quote tkn_in_ind tkn_out_ind = do
  input ← get_token infos tkn_in_ind
  output ← get_token infos tkn_out_ind
  find_boundaries (λ x. quote (record {
    input_mint = input.pubkey;
    output_mint = output.pubkey;
    amount = x;
    swap_type = exact_in;
  }))

-- The indices below `n` from `i`, which are of 8 bits.
unfoldable pub indices_from : ℕ → ℕ → List ℕ
indices_from i zero = []
indices_from i (suc n) = i ∷ indices_from (suc i) n

-- The pairs of `i` with each other index.
unfoldable pub pairs_of : ℕ → List ℕ → List (ℕ × ℕ)
pairs_of i [] = []
pairs_of i (j ∷ js) = if j == i then pairs_of i js else (i, j) ∷ pairs_of i js

unfoldable pub all_pairs : List ℕ → List ℕ → List (ℕ × ℕ)
unfolding pairs_of
all_pairs [] js = []
all_pairs (i ∷ is) js = pairs_of i js ++ all_pairs is js

-- The default `directions_num`: every ordered pair of tokens, of the first 2^8.
unfoldable pub default_directions_num : List TokenInfo → List (ℕ × ℕ)
unfolding indices_from all_pairs
default_directions_num infos =
    let indices = indices_from 0 (min (length infos) 256) in all_pairs indices indices
