-- ===== src/Common/Addresses.antt =====
-- `src/your_venue/common/programs.rs` and `global_config_pda` of `src/your_venue/state.rs`: the
-- addresses that are derived from seeds, where `Pubkey::find_program_address` of the Solana crates
-- is a parameter and only the address that it finds is kept.
use overpass_titan_venue.Base.{List, ℕ, [], ◌∷◌, Pubkey}
use overpass_titan_venue.Common.Programs.{default_pubkey}

pub record ProgramAddresses : Type 0 where
  pub find_program_address : List (List ℕ) → Pubkey → Pubkey

abbrev pub ata_program_id : Pubkey
ata_program_id =
    140 ∷ 151 ∷ 37 ∷ 143 ∷ 78 ∷ 36 ∷ 137 ∷ 241 ∷ 187 ∷ 61 ∷ 16 ∷ 41 ∷ 20 ∷ 142 ∷ 13 ∷ 131 ∷ 11 ∷ 90
    ∷ 19 ∷ 153 ∷ 218 ∷ 255 ∷ 16 ∷ 132 ∷ 4 ∷ 142 ∷ 123 ∷ 216 ∷ 219 ∷ 233 ∷ 248 ∷ 89 ∷ []

-- The system program has the address of all zeros.
abbrev pub system_program_id : Pubkey
system_program_id = default_pubkey

unfoldable pub derive_ata : ⦃a : ProgramAddresses⦄ → Pubkey → Pubkey → Pubkey → Pubkey
derive_ata ⦃a⦄ owner mint token_program =
    a.find_program_address (owner ∷ token_program ∷ mint ∷ []) ata_program_id

abbrev pub seed_global_config : List ℕ
seed_global_config = 99 ∷ 111 ∷ 110 ∷ 102 ∷ 105 ∷ 103 ∷ []

unfoldable pub global_config_pda : ⦃a : ProgramAddresses⦄ → Pubkey → Pubkey
global_config_pda ⦃a⦄ program_id = a.find_program_address (seed_global_config ∷ []) program_id
