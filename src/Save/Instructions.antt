-- ===== src/Save/Instructions.antt =====
-- `src/your_venue/save/account_metas.rs` and the instructions of `src/your_venue/save/mod.rs`.
pub mod Call
mod Tests
use overpass_titan_venue.Base.{
  ℕ, Bool, true, false, List, [], ◌∷◌, ◌++◌, Pubkey, Outcome, ok, ◌>>=◌, bytes_eq, if◌then◌else◌,
}
use overpass_titan_venue.Common.Bytes.{to_le_bytes}
use overpass_titan_venue.Common.Programs.{default_pubkey, spl_token_program_id}
use overpass_titan_venue.Common.Addresses.{
  ProgramAddresses, ata_program_id, system_program_id, derive_ata, global_config_pda,
}
use overpass_titan_venue.Common.State.{WrapperVault}
use overpass_titan_venue.Save.State.{SaveState}
use overpass_titan_venue.SwapRoute.{AccountMeta, Instruction}
use overpass_titan_venue.Venue.Creations.{overpass_program_id}

abbrev pub save_program_id : Pubkey
save_program_id =
    6 ∷ 155 ∷ 139 ∷ 152 ∷ 90 ∷ 171 ∷ 83 ∷ 42 ∷ 69 ∷ 9 ∷ 13 ∷ 232 ∷ 85 ∷ 127 ∷ 205 ∷ 220 ∷ 190 ∷ 108
    ∷ 183 ∷ 239 ∷ 199 ∷ 58 ∷ 10 ∷ 101 ∷ 176 ∷ 111 ∷ 146 ∷ 3 ∷ 93 ∷ 183 ∷ 62 ∷ 236 ∷ []

abbrev pub deposit_ix_discriminator : List ℕ
deposit_ix_discriminator = 228 ∷ 118 ∷ 83 ∷ 29 ∷ 177 ∷ 243 ∷ 8 ∷ 120 ∷ []

abbrev pub withdraw_ix_discriminator : List ℕ
withdraw_ix_discriminator = 60 ∷ 34 ∷ 9 ∷ 77 ∷ 12 ∷ 119 ∷ 66 ∷ 105 ∷ []

-- The seeds `b"vault"` and `b"authority"`.
abbrev seed_vault : List ℕ
seed_vault = 118 ∷ 97 ∷ 117 ∷ 108 ∷ 116 ∷ []

abbrev seed_authority : List ℕ
seed_authority = 97 ∷ 117 ∷ 116 ∷ 104 ∷ 111 ∷ 114 ∷ 105 ∷ 116 ∷ 121 ∷ []

-- `AccountMeta::new` and `AccountMeta::new_readonly` of the `solana_instruction` crate.
abbrev pub new_meta : Pubkey → Bool → AccountMeta
new_meta key signer = record { pubkey = key; is_signer = signer; is_writable = true }

abbrev pub new_readonly : Pubkey → Bool → AccountMeta
new_readonly key signer = record { pubkey = key; is_signer = signer; is_writable = false }

unfoldable pub build_base :
    ⦃a : ProgramAddresses⦄ → SaveState → WrapperVault → Pubkey → Outcome (List AccountMeta)
unfolding derive_ata global_config_pda
build_base ⦃a⦄ state wv user =
    let wrapper_mint = wv.wrapper_mint in
    let underlying_mint = wv.underlying_mint in
    let collateral_mint = state.collateral_mint_pubkey in
    let global_config = global_config_pda overpass_program_id in
    let wrapper_vault_pda =
      a.find_program_address (seed_vault ∷ wrapper_mint ∷ []) overpass_program_id in
    let vault_authority =
      a.find_program_address (seed_authority ∷ wrapper_mint ∷ []) overpass_program_id in
    let save_lending_market_authority =
      a.find_program_address (state.lending_market ∷ []) save_program_id in
    let user_underlying_ata = derive_ata user underlying_mint spl_token_program_id in
    let user_wrapper_ata = derive_ata user wrapper_mint spl_token_program_id in
    let vault_underlying_ata = derive_ata vault_authority underlying_mint spl_token_program_id in
    let vault_collateral_ata = derive_ata vault_authority collateral_mint spl_token_program_id in
    let metas =
      new_meta user true
      ∷ new_readonly global_config false
      ∷ new_meta wrapper_vault_pda false
      ∷ new_readonly vault_authority false
      ∷ new_meta wrapper_mint false
      ∷ new_meta underlying_mint false
      ∷ new_meta collateral_mint false
      ∷ new_meta user_wrapper_ata false
      ∷ new_meta user_underlying_ata false
      ∷ new_meta vault_underlying_ata false
      ∷ new_meta vault_collateral_ata false
      ∷ new_meta wv.source_pool false
      ∷ new_meta state.lending_market false
      ∷ new_readonly save_lending_market_authority false
      ∷ new_meta state.supply_vault false
      ∷ new_readonly state.pyth_oracle false
      ∷ new_readonly state.switchboard_oracle false
      ∷ new_readonly save_program_id false
      ∷ new_readonly spl_token_program_id false
      ∷ new_readonly spl_token_program_id false
      ∷ new_readonly ata_program_id false
      ∷ new_readonly system_program_id false
      ∷ [] in
    ok (
      if bytes_eq state.extra_oracle_pubkey default_pubkey
      then metas
      else metas ++ (new_readonly state.extra_oracle_pubkey false ∷ []))

unfoldable pub build_deposit :
    ⦃a : ProgramAddresses⦄ → SaveState → WrapperVault → Pubkey → Outcome (List AccountMeta)
unfolding build_base
build_deposit state wv user = build_base state wv user

unfoldable pub build_withdraw :
    ⦃a : ProgramAddresses⦄ → SaveState → WrapperVault → Pubkey → Outcome (List AccountMeta)
unfolding build_base
build_withdraw state wv user = build_base state wv user

unfoldable pub build_deposit_ix :
    ⦃a : ProgramAddresses⦄ → SaveState → WrapperVault → Pubkey → ℕ → ℕ → Outcome Instruction
unfolding build_deposit
build_deposit_ix state wv user in_amount min_out = do
  accounts ← build_deposit state wv user
  ok (record {
    program_id = overpass_program_id;
    accounts = accounts;
    data_bytes = (deposit_ix_discriminator ++ to_le_bytes 8 in_amount) ++ to_le_bytes 8 min_out;
  })

unfoldable pub build_withdraw_ix :
    ⦃a : ProgramAddresses⦄ → SaveState → WrapperVault → Pubkey → ℕ → ℕ → Outcome Instruction
unfolding build_withdraw
build_withdraw_ix state wv user in_amount min_out = do
  accounts ← build_withdraw state wv user
  ok (record {
    program_id = overpass_program_id;
    accounts = accounts;
    data_bytes = (withdraw_ix_discriminator ++ to_le_bytes 8 in_amount) ++ to_le_bytes 8 min_out;
  })
