-- ===== src/Venue/Creations.antt =====
-- `parse_pool_creations` of `src/your_venue/mod.rs`, over the instructions and the pools of
-- `src/trading_venue/venue_creation.rs`. The address of the program, which the source writes in
-- base 58, is its bytes.
pub mod Spec
use overpass_titan_venue.Base.{
  ℕ, Bool, List, [], ◌∷◌, Option, none, some, Pubkey, bytes_eq, get_elem?, length, take, ltb,
  if◌then◌else◌,
}
use overpass_titan_venue.Shares.{and_then}
use overpass_titan_venue.SwapRoute.{PoolProtocol, protocol_overpass}

abbrev pub overpass_program_id : Pubkey
overpass_program_id =
    7 ∷ 137 ∷ 41 ∷ 213 ∷ 61 ∷ 14 ∷ 187 ∷ 50 ∷ 110 ∷ 68 ∷ 235 ∷ 117 ∷ 76 ∷ 98 ∷ 131 ∷ 151 ∷ 16 ∷ 69
    ∷ 70 ∷ 231 ∷ 236 ∷ 1 ∷ 27 ∷ 186 ∷ 165 ∷ 97 ∷ 197 ∷ 164 ∷ 189 ∷ 63 ∷ 212 ∷ 64 ∷ []

pub record ParsedInstruction : Type 0 where
  pub program_id : Pubkey
  pub accounts : List Pubkey
  pub data_bytes : List ℕ

pub record PoolCreation : Type 0 where
  pub protocol : PoolProtocol
  pub pool : Pubkey
  pub mints : List Pubkey

abbrev wrapper_mint_index : ℕ
wrapper_mint_index = 3

abbrev wrapper_vault_index : ℕ
wrapper_vault_index = 4

abbrev pub create_klend : List ℕ
create_klend = 136 ∷ 245 ∷ 198 ∷ 59 ∷ 16 ∷ 197 ∷ 150 ∷ 217 ∷ []

abbrev pub create_kvault : List ℕ
create_kvault = 43 ∷ 164 ∷ 2 ∷ 34 ∷ 109 ∷ 244 ∷ 81 ∷ 133 ∷ []

abbrev pub create_save : List ℕ
create_save = 187 ∷ 66 ∷ 56 ∷ 163 ∷ 144 ∷ 111 ∷ 223 ∷ 237 ∷ []

abbrev pub create_marginfi : List ℕ
create_marginfi = 240 ∷ 19 ∷ 160 ∷ 156 ∷ 172 ∷ 225 ∷ 176 ∷ 81 ∷ []

abbrev pub create_lulo : List ℕ
create_lulo = 170 ∷ 183 ∷ 146 ∷ 74 ∷ 209 ∷ 199 ∷ 235 ∷ 168 ∷ []

-- The discriminators, each with the index of the underlying mint.
abbrev pub creations : List (List ℕ × ℕ)
creations =
    (create_klend, 7)
    ∷ (create_kvault, 7)
    ∷ (create_save, 7)
    ∷ (create_marginfi, 9)
    ∷ (create_lulo, 9)
    ∷ []

unfoldable pub find_creation : List ℕ → List (List ℕ × ℕ) → Option ℕ
find_creation disc [] = none
find_creation disc (entry ∷ entries) =
    if bytes_eq entry.0 disc then some entry.1 else find_creation disc entries

-- The closure of the `filter_map`.
unfoldable pub creation_of : ParsedInstruction → Option PoolCreation
unfolding find_creation
creation_of ix =
    if ltb (length ix.data_bytes) 8
    then none
    else and_then (find_creation (take 8 ix.data_bytes) creations) (λ underlying_index.
      and_then (get_elem? ix.accounts wrapper_vault_index) (λ pool.
        and_then (get_elem? ix.accounts wrapper_mint_index) (λ wrapper_mint.
          and_then (get_elem? ix.accounts underlying_index) (λ underlying_mint. some (record {
            protocol = protocol_overpass;
            pool = pool;
            mints = underlying_mint ∷ wrapper_mint ∷ [];
          })))))

unfoldable pub collect : Option PoolCreation → List PoolCreation → List PoolCreation
collect none pools = pools
collect (some pool) pools = pool ∷ pools

unfoldable pub parse_pool_creations : List ParsedInstruction → List PoolCreation
unfolding creation_of collect
parse_pool_creations [] = []
parse_pool_creations (ix ∷ ixs) =
    let pools = parse_pool_creations ixs in
    if bytes_eq ix.program_id overpass_program_id then collect (creation_of ix) pools else pools
