-- ===== src/Save/Instructions/Call.antt =====
-- What the program is asked by the instructions of `src/your_venue/save/mod.rs`.
use overpass_titan_venue.Base.{
  ℕ, ◌≡◌, refl, ap, Bool, true, false, List, [], ◌∷◌, ◌++◌, Pubkey, Outcome, ok, ◌>>=◌, bytes_eq,
  take, length, length-append, IsU64, arith, if◌then◌else◌,
}
use overpass_titan_venue.Common.Bytes.{to_le_bytes, read_u64}
use overpass_titan_venue.Common.Bytes.RoundTrip.{read_uint-to_le_bytes, length-to_le_bytes}
use mathlib.Core.List.{append_assoc}
use overpass_titan_venue.Common.Programs.{default_pubkey}
use overpass_titan_venue.Common.Addresses.{ProgramAddresses}
use overpass_titan_venue.Common.State.{WrapperVault}
use overpass_titan_venue.Save.State.{SaveState}
use overpass_titan_venue.Save.Instructions.{
  deposit_ix_discriminator, withdraw_ix_discriminator, build_base, build_deposit, build_withdraw,
  build_deposit_ix, build_withdraw_ix,
}
use overpass_titan_venue.SwapRoute.{AccountMeta, Instruction}
use overpass_titan_venue.Venue.Creations.{overpass_program_id}

-- The accounts that must sign.
abbrev pub signers : List AccountMeta → List Pubkey
signers [] = []
signers (meta ∷ metas) =
    let rest = signers metas in if meta.is_signer then meta.pubkey ∷ rest else rest

-- The accounts of a call: one more where the reserve names an extra oracle.
abbrev pub account_count : Bool → ℕ
account_count no_extra_oracle = if no_extra_oracle then 22 else 23

-- A call of the program by `user`: the data are the discriminator, the amount and the least amount
-- out, as a reader of the fields of an account reads them.
pub record IsCall (disc : List ℕ) (state : SaveState) (user : Pubkey) (in_amount min_out : ℕ)
    (ix : Instruction) : Type 0 where
  pub of_program : ix.program_id ≡ overpass_program_id
  pub signed_by : signers ix.accounts ≡ user ∷ []
  pub counted :
      length ix.accounts ≡ account_count (bytes_eq state.extra_oracle_pubkey default_pubkey)
  pub starts : take 8 ix.data_bytes ≡ disc
  pub amount_read : read_u64 ix.data_bytes 8 "amount" ≡ ok in_amount
  pub least_read : read_u64 ix.data_bytes 16 "least" ≡ ok min_out
  pub ends : length ix.data_bytes ≡ 24

signers_either :
    (b : Bool) (ms ns : List AccountMeta) (keys : List Pubkey)
    → signers ms ≡ keys
    → signers ns ≡ keys
    → signers (if b then ms else ns) ≡ keys
signers_either true ms ns keys h k = h
signers_either false ms ns keys h k = k

length_either :
    (b : Bool) (ms ns : List AccountMeta)
    → length ms ≡ 22
    → length ns ≡ 23
    → length (if b then ms else ns) ≡ account_count b
length_either true ms ns h k = h
length_either false ms ns h k = k

-- The number in the first eight bytes after the discriminator, and in the last eight.
read_first :
    (disc : List ℕ) (n m : ℕ)
    → length disc ≡ 8
    → IsU64 n
    → read_u64 ((disc ++ to_le_bytes 8 n) ++ to_le_bytes 8 m) 8 "amount" ≡ ok n
unfolding read_u64
read_first disc n m eight fits = rw (append_assoc disc (to_le_bytes 8 n) (to_le_bytes 8 m)) (
    rw eight at (
      read_uint-to_le_bytes 8 n disc (to_le_bytes 8 m) "amount" (omega (arith, fits))
        (omega (arith, eight))))

read_last :
    (before : List ℕ) (m : ℕ)
    → length before ≡ 16
    → IsU64 m
    → read_u64 (before ++ to_le_bytes 8 m) 16 "least" ≡ ok m
unfolding read_u64 to_le_bytes
read_last before m sixteen fits =
    rw sixteen at
      (read_uint-to_le_bytes 8 m before [] "least" (omega (arith, fits)) (omega (arith, sixteen)))

-- The accounts of either direction.
build_base-Signed :
    ⦃a : ProgramAddresses⦄ (state : SaveState) (wv : WrapperVault) (user : Pubkey)
    → (metas : List AccountMeta) × (build_base state wv user ≡ ok metas)
      × (signers metas ≡ user ∷ [])
      × (length metas ≡ account_count (bytes_eq state.extra_oracle_pubkey default_pubkey))
unfolding build_base
build_base-Signed ⦃a⦄ state wv user =
    let b = bytes_eq state.extra_oracle_pubkey default_pubkey in
    (_, refl, signers_either b _ _ (user ∷ []) refl refl, length_either b _ _ refl refl)

-- The instruction with a discriminator and accounts.
abbrev instruction : List ℕ → List AccountMeta → ℕ → ℕ → Instruction
instruction disc metas n m = record {
  program_id = overpass_program_id;
  accounts = metas;
  data_bytes = (disc ++ to_le_bytes 8 n) ++ to_le_bytes 8 m;
}

instruction-IsCall :
    (disc : List ℕ) (state : SaveState) (user : Pubkey) (n m : ℕ) (metas : List AccountMeta)
    → length disc ≡ 8
    → signers metas ≡ user ∷ []
    → length metas ≡ account_count (bytes_eq state.extra_oracle_pubkey default_pubkey)
    → take 8 ((disc ++ to_le_bytes 8 n) ++ to_le_bytes 8 m) ≡ disc
    → IsU64 n
    → IsU64 m
    → IsCall disc state user n m (instruction disc metas n m)
instruction-IsCall disc state user n m metas eight signed counted starts hn hm =
    let sixteen : length (disc ++ to_le_bytes 8 n) ≡ 16 =
      ground (arith, eight, length-append disc (to_le_bytes 8 n), length-to_le_bytes 8 n) in
    record {
      of_program = refl;
      signed_by = signed;
      counted = counted;
      starts = starts;
      amount_read = read_first disc n m eight hn;
      least_read = read_last (disc ++ to_le_bytes 8 n) m sixteen hm;
      ends = ground (
        arith,
        sixteen,
        length-append (disc ++ to_le_bytes 8 n) (to_le_bytes 8 m),
        length-to_le_bytes 8 m,
      );
    }

-- For amounts of 64 bits, `build_deposit_ix` returns an instruction of the program which `user`
-- alone signs, with 22 accounts, or 23 where the reserve names an extra oracle, and whose data are
-- the discriminator of a deposit and the two amounts, and so does `build_withdraw_ix` with the
-- discriminator of a withdrawal.
pub build_ix-IsCall :
    ⦃a : ProgramAddresses⦄ (state : SaveState) (wv : WrapperVault) (user : Pubkey)
    (in_amount min_out : ℕ)
    → IsU64 in_amount
    → IsU64 min_out
    → ((ix : Instruction) × (build_deposit_ix state wv user in_amount min_out ≡ ok ix)
        × IsCall deposit_ix_discriminator state user in_amount min_out ix)
      × ((ix : Instruction) × (build_withdraw_ix state wv user in_amount min_out ≡ ok ix)
          × IsCall withdraw_ix_discriminator state user in_amount min_out ix)
unfolding build_deposit_ix build_withdraw_ix build_deposit build_withdraw to_le_bytes ◌>>=◌
build_ix-IsCall state wv user n m hn hm =
    let (metas, e, signed, counted) = build_base-Signed state wv user in
    (
      (
        instruction deposit_ix_discriminator metas n m,
        ap
            (λ (r : Outcome (List AccountMeta)).
              r >>= λ metas. ok (instruction deposit_ix_discriminator metas n m))
            e,
        instruction-IsCall deposit_ix_discriminator state user n m metas refl signed counted refl hn
            hm,
      ),
      (
        instruction withdraw_ix_discriminator metas n m,
        ap
            (λ (r : Outcome (List AccountMeta)).
              r >>= λ metas. ok (instruction withdraw_ix_discriminator metas n m))
            e,
        instruction-IsCall withdraw_ix_discriminator state user n m metas refl signed counted refl
            hn hm,
      ),
    )
