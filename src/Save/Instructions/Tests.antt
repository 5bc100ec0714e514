-- ===== src/Save/Instructions/Tests.antt =====
-- A call for a Save reserve without an extra oracle.
use overpass_titan_venue.Base.{◌*◌, ◌≡◌, refl, [], ◌∷◌, Pubkey, ok, ◌>>=◌, arith}
use overpass_titan_venue.Common.Addresses.{ProgramAddresses, derive_ata, global_config_pda}
use overpass_titan_venue.Common.Programs.{default_pubkey}
use overpass_titan_venue.Common.Bytes.{to_le_bytes}
use overpass_titan_venue.Klend.Samples.{vault}
use overpass_titan_venue.Save.Wad.{wad}
use overpass_titan_venue.Save.State.{SaveState}
use overpass_titan_venue.Save.Instructions.{
  deposit_ix_discriminator, withdraw_ix_discriminator, build_base, build_deposit, build_deposit_ix,
  build_withdraw_ix,
}
use overpass_titan_venue.Save.Instructions.Call.{IsCall, build_ix-IsCall}
use overpass_titan_venue.SwapRoute.{Instruction}

-- The program stands for an address that is derived for it.
abbrev addresses : ProgramAddresses
addresses = record { find_program_address = λ seeds program. program }

abbrev reserve : SaveState
reserve = record {
  last_update_slot = 100;
  lending_market = [];
  mint_pubkey = [];
  supply_vault = [];
  pyth_oracle = [];
  switchboard_oracle = [];
  available_amount = 1_000_000;
  borrowed_amount_wads = 500_000 * wad;
  accumulated_protocol_fees_wads = 0;
  collateral_mint_pubkey = [];
  collateral_supply_vault = [];
  collateral_mint_total_supply = 1_200_000;
  optimal_utilization_rate = 80;
  max_utilization_rate = 90;
  min_borrow_rate = 0;
  optimal_borrow_rate = 8;
  max_borrow_rate = 20;
  super_max_borrow_rate = 150;
  protocol_take_rate = 10;
  deposit_limit = 10_000_000;
  extra_oracle_pubkey = default_pubkey;
}

abbrev user : Pubkey
user = 9 ∷ []

deposit_data_run :
    build_deposit_ix ⦃a = addresses⦄ reserve vault user 258 1 >>= (λ ix. ok ix.data_bytes)
    ≡ ok (
        228 ∷ 118 ∷ 83 ∷ 29 ∷ 177 ∷ 243 ∷ 8 ∷ 120 ∷ 2 ∷ 1 ∷ 0 ∷ 0 ∷ 0 ∷ 0 ∷ 0 ∷ 0 ∷ 1 ∷ 0 ∷ 0 ∷ 0
        ∷ 0 ∷ 0 ∷ 0 ∷ 0 ∷ [])
unfolding build_deposit_ix build_deposit build_base derive_ata global_config_pda to_le_bytes ◌>>=◌
deposit_data_run = refl

build_ix-IsCall_example :
    ((ix : Instruction) × (build_deposit_ix ⦃a = addresses⦄ reserve vault user 258 1 ≡ ok ix)
      × IsCall deposit_ix_discriminator reserve user 258 1 ix)
    × ((ix : Instruction) × (build_withdraw_ix ⦃a = addresses⦄ reserve vault user 258 1 ≡ ok ix)
        × IsCall withdraw_ix_discriminator reserve user 258 1 ix)
build_ix-IsCall_example =
    build_ix-IsCall ⦃a = addresses⦄ reserve vault user 258 1 (omega arith) (omega arith)
