-- ===== src/Marginfi/State/Account.antt =====
-- `src/your_venue/marginfi/state.rs`: the shares of an account in a bank, and the fees of the group.
use overpass_titan_venue.Base.{
  ℕ, zero, suc, ◌+◌, ◌*◌, ◌%◌, Bool, not, List, [], ◌∷◌, Pubkey, Outcome, ok, ◌>>=◌, ◌>>◌, fail_if,
  ltb, ◌==◌, if◌then◌else◌, bytes_eq, take, drop, length, deserialization_error,
}
use overpass_titan_venue.Int.{ℤ, pos}
use overpass_titan_venue.Common.Bytes.{read_u64, byte_at}
use overpass_titan_venue.Marginfi.State.{read_wrapped_i80f48}

abbrev pub marginfi_account_discriminator : List ℕ
marginfi_account_discriminator = 67 ∷ 178 ∷ 130 ∷ 109 ∷ 126 ∷ 114 ∷ 28 ∷ 42 ∷ []

abbrev off_balances_start : ℕ
off_balances_start = 72

abbrev balance_size : ℕ
balance_size = 104

abbrev balance_count : ℕ
balance_count = 16

abbrev bal_off_active : ℕ
bal_off_active = 0

abbrev bal_off_bank_pk : ℕ
bal_off_bank_pk = 1

abbrev bal_off_asset_shares : ℕ
bal_off_asset_shares = 40

abbrev off_group_flags : ℕ
off_group_flags = 40

abbrev off_group_program_fee_fixed : ℕ
off_group_program_fee_fixed = 80

abbrev off_group_program_fee_rate : ℕ
off_group_program_fee_rate = 96

-- The loop over the balances, with how many are left and the offset of the next.
unfoldable pub find_balance : ℕ → List ℕ → Pubkey → ℕ → Outcome ℤ
unfolding read_wrapped_i80f48
find_balance zero bytes bank_pk base = ok (pos 0)
find_balance (suc n) bytes bank_pk base = do
  active ← byte_at bytes (base + bal_off_active)
  let rest = find_balance n bytes bank_pk (base + balance_size)
  if active == 0
      then rest
      else if not (bytes_eq (take 32 (drop (base + bal_off_bank_pk) bytes)) bank_pk)
      then rest
      else read_wrapped_i80f48 bytes (base + bal_off_asset_shares)

unfoldable pub read_asset_shares_for_bank : List ℕ → Pubkey → Outcome ℤ
unfolding find_balance
read_asset_shares_for_bank bytes bank_pk = do
  fail_if (ltb (length bytes) (off_balances_start + balance_count * balance_size))
      (deserialization_error "marginfi_account: length")
  fail_if (not (bytes_eq (take 8 bytes) marginfi_account_discriminator))
      (deserialization_error "marginfi_account: discriminator")
  find_balance balance_count bytes bank_pk off_balances_start

abbrev pub marginfi_group_len : ℕ
marginfi_group_len = 1064

abbrev pub marginfi_group_discriminator : List ℕ
marginfi_group_discriminator = 182 ∷ 23 ∷ 173 ∷ 240 ∷ 151 ∷ 206 ∷ 182 ∷ 67 ∷ []

pub record MarginfiGroupState : Type 0 where
  pub program_fees_enabled : Bool
  pub program_fee_fixed : ℤ
  pub program_fee_rate : ℤ

-- `group_flags & 1` is the lowest bit.
unfoldable pub decode_group : List ℕ → Outcome MarginfiGroupState
unfolding read_wrapped_i80f48
decode_group bytes = do
  fail_if (ltb (length bytes) marginfi_group_len) (deserialization_error "marginfi group: length")
  fail_if (not (bytes_eq (take 8 bytes) marginfi_group_discriminator))
      (deserialization_error "marginfi group: discriminator")
  group_flags ← read_u64 bytes off_group_flags "marginfi.group.group_flags"
  program_fee_fixed ← read_wrapped_i80f48 bytes off_group_program_fee_fixed
  program_fee_rate ← read_wrapped_i80f48 bytes off_group_program_fee_rate
  ok (record {
    program_fees_enabled = not (group_flags % 2 == 0);
    program_fee_fixed = program_fee_fixed;
    program_fee_rate = program_fee_rate;
  })
