-- ===== src/SwapRoute/Leg.antt =====
-- What a leg of a route guarantees: the accounts that the venue's instruction has, in order, without
-- the signature of the route's own account, and the program of the venue at the end.
use overpass_titan_venue.Base.{
  ℕ, zero, suc, ◌%◌, ◌^◌, ◌<◌, ◌≤◌, ◌≡◌, ◌≢◌, refl, ap, ◌∙◌, Bool, true, false, List, [], ◌∷◌, ◌++◌,
  some, Pubkey, ok, err, panic, TradingVenueError, arith, length, take, length-take, get_elem?,
  bytes_eq, IsU8, ltb, if◌then◌else◌, ltb→le,
}
use mathlib.Core.Path.{subst}
use overpass_titan_venue.Base.Safe.{Safe, Safe-ok, Safe-err, Safe-if, Safe->>=}
use overpass_titan_venue.TradingVenue.{QuoteRequest}
use overpass_titan_venue.Common.Programs.{default_pubkey}
use overpass_titan_venue.SwapRoute.{
  Venue, raydium_amm, overpass, SwapSpecInputV2, PoolProtocol, protocol_overpass,
  protocol_raydium_amm, AccountMeta, Instruction, LegVenue, venue_of, protocol_to_venue,
  clear_signer, clear_signers, assemble_leg_accounts, build_swap_leg,
}
use overpass_titan_venue.SwapRoute.RoundTrip.{IsVenue, IsSpec}

-- The accounts of a leg against those of the instruction.
pub record IsLegAccounts (ix : Instruction) (titan_pda program_id : Pubkey)
    (accounts : List AccountMeta) : Type 0 where
  pub count : length accounts ≡ suc (length ix.accounts)
  pub others_kept :
      (i : ℕ) (a : AccountMeta)
      → get_elem? ix.accounts i ≡ some a
      → bytes_eq a.pubkey titan_pda ≡ false
      → get_elem? accounts i ≡ some a
  pub titan_cleared :
      (i : ℕ) (a : AccountMeta)
      → get_elem? ix.accounts i ≡ some a
      → bytes_eq a.pubkey titan_pda ≡ true
      → get_elem? accounts i ≡ some (record a { is_signer = false })
  pub last :
      get_elem? accounts (length ix.accounts)
      ≡ some (record { pubkey = program_id; is_signer = false; is_writable = false })
  pub titan_unsigned :
      (i : ℕ) (a : AccountMeta)
      → get_elem? accounts i ≡ some a
      → bytes_eq a.pubkey titan_pda ≡ true
      → a.is_signer ≡ false

-- The venue that the program is told of: for an Overpass venue, with the first eight bytes of the
-- instruction that it generates for no user.
pub data IsVenueOf (venue : LegVenue) (request : QuoteRequest) : Venue → Type 0 where
  of_raydium : venue.protocol ≡ protocol_raydium_amm → IsVenueOf venue request raydium_amm
  of_overpass :
      (ix : Instruction)
      → venue.protocol ≡ protocol_overpass
      → venue.generate_swap_instruction request default_pubkey ≡ ok ix
      → 8 ≤ length ix.data_bytes
      → IsVenueOf venue request (overpass (take 8 ix.data_bytes))

-- A leg and its accounts, from the venue's instruction.
pub record IsLeg (venue : LegVenue) (request : QuoteRequest) (titan_pda : Pubkey)
    (from to weight_nanos : ℕ) (leg : SwapSpecInputV2 × List AccountMeta) : Type 0 where
  pub swap_ix : Instruction
  pub generated : venue.generate_swap_instruction request titan_pda ≡ ok swap_ix
  pub are_accounts : IsLegAccounts swap_ix titan_pda venue.venue_program_id leg.1
  pub counted : leg.0.n_accounts ≡ suc (length swap_ix.accounts) % 2 ^ 8
  pub few_counted : length leg.1 < 2 ^ 8 → leg.0.n_accounts ≡ length leg.1
  pub is_venue : IsVenueOf venue request leg.0.venue
  pub is_from : leg.0.from ≡ from
  pub is_to : leg.0.to ≡ to
  pub is_weight : leg.0.weight_nanos ≡ weight_nanos
  pub fits : IsU8 from → IsU8 to → weight_nanos < 2 ^ 32 → IsSpec leg.0

-- Why no leg was built: an instruction could not be generated, or that of an Overpass venue has no
-- discriminator.
pub data LegFailure (venue : LegVenue) (request : QuoteRequest) (titan_pda : Pubkey)
    (e : TradingVenueError) : Type 0 where
  not_generated :
      venue.generate_swap_instruction request titan_pda ≡ err e
      → LegFailure venue request titan_pda e
  not_identified :
      venue.protocol ≡ protocol_overpass
      → venue.generate_swap_instruction request default_pubkey ≡ err e
      → LegFailure venue request titan_pda e
  no_discriminator :
      (ix : Instruction)
      → venue.protocol ≡ protocol_overpass
      → venue.generate_swap_instruction request default_pubkey ≡ ok ix
      → length ix.data_bytes < 8
      → LegFailure venue request titan_pda e

abbrev program_account : Pubkey → AccountMeta
program_account key = record { pubkey = key; is_signer = false; is_writable = false }

clear_signers_elem :
    (titan : Pubkey) (xs ys : List AccountMeta) (i : ℕ) (a : AccountMeta)
    → get_elem? xs i ≡ some a
    → get_elem? (clear_signers titan xs ++ ys) i ≡ some (clear_signer titan a)
unfolding clear_signers
clear_signers_elem titan [] ys i a h = absurd cc
clear_signers_elem titan (x ∷ xs) ys zero a h =
    ap (λ (o : AccountMeta). some (clear_signer titan o)) (cc)
clear_signers_elem titan (x ∷ xs) ys (suc i) a h = clear_signers_elem titan xs ys i a h

clear_signers_last :
    (titan : Pubkey) (xs : List AccountMeta) (p : AccountMeta)
    → get_elem? (clear_signers titan xs ++ (p ∷ [])) (length xs) ≡ some p
unfolding clear_signers
clear_signers_last titan [] p = refl
clear_signers_last titan (x ∷ xs) p = clear_signers_last titan xs p

length-clear_signers :
    (titan : Pubkey) (xs : List AccountMeta) (p : AccountMeta)
    → length (clear_signers titan xs ++ (p ∷ [])) ≡ suc (length xs)
unfolding clear_signers
length-clear_signers titan [] p = refl
length-clear_signers titan (x ∷ xs) p = ap suc (length-clear_signers titan xs p)

clear_signer-other :
    (titan : Pubkey) (a : AccountMeta) → bytes_eq a.pubkey titan ≡ false → clear_signer titan a ≡ a
unfolding clear_signer
clear_signer-other titan a h = rw h refl

clear_signer-titan :
    (titan : Pubkey) (a : AccountMeta)
    → bytes_eq a.pubkey titan ≡ true
    → clear_signer titan a ≡ record a { is_signer = false }
unfolding clear_signer
clear_signer-titan titan a h = rw h refl

if_unsigned :
    (titan : Pubkey) (a : AccountMeta) (b : Bool)
    → bytes_eq a.pubkey titan ≡ b
    → bytes_eq (if b then record a { is_signer = false } else a).pubkey titan ≡ true
    → (if b then record a { is_signer = false } else a).is_signer ≡ false
if_unsigned titan a true e h = refl
if_unsigned titan a false e h = absurd cc

clear_signer-unsigned :
    (titan : Pubkey) (a : AccountMeta)
    → bytes_eq (clear_signer titan a).pubkey titan ≡ true
    → (clear_signer titan a).is_signer ≡ false
unfolding clear_signer
clear_signer-unsigned titan a h = if_unsigned titan a (bytes_eq a.pubkey titan) refl h

clear_signers_unsigned :
    (titan : Pubkey) (xs : List AccountMeta) (p a : AccountMeta) (i : ℕ)
    → p.is_signer ≡ false
    → get_elem? (clear_signers titan xs ++ (p ∷ [])) i ≡ some a
    → bytes_eq a.pubkey titan ≡ true
    → a.is_signer ≡ false
unfolding clear_signers
clear_signers_unsigned titan [] p a zero hp h e =
    let k : p ≡ a = cc in subst (λ x. x.is_signer ≡ false) k hp
clear_signers_unsigned titan [] p a (suc i) hp h e = absurd cc
clear_signers_unsigned titan (x ∷ xs) p a zero hp h e =
    let k : clear_signer titan x ≡ a = cc in
    subst (λ y. bytes_eq y.pubkey titan ≡ true → y.is_signer ≡ false) k
      (clear_signer-unsigned titan x) e
clear_signers_unsigned titan (x ∷ xs) p a (suc i) hp h e =
    clear_signers_unsigned titan xs p a i hp h e

assemble_leg_accounts-IsLegAccounts :
    (ix : Instruction) (titan program_id : Pubkey)
    → IsLegAccounts ix titan program_id (assemble_leg_accounts ix titan program_id)
unfolding assemble_leg_accounts
assemble_leg_accounts-IsLegAccounts ix titan program_id = record {
  count = length-clear_signers titan ix.accounts (program_account program_id);
  others_kept = λ i a h e.
      clear_signers_elem titan ix.accounts (program_account program_id ∷ []) i a h
      ∙ ap (λ (o : AccountMeta). some o) (clear_signer-other titan a e);
  titan_cleared = λ i a h e.
      clear_signers_elem titan ix.accounts (program_account program_id ∷ []) i a h
      ∙ ap (λ (o : AccountMeta). some o) (clear_signer-titan titan a e);
  last = clear_signers_last titan ix.accounts (program_account program_id);
  titan_unsigned =
      λ i a h e. clear_signers_unsigned titan ix.accounts (program_account program_id) a i refl h e;
}

-- The venue of a leg has a discriminator of eight bytes.
venue_of-Safe :
    (p : PoolProtocol) (venue : LegVenue) (request : QuoteRequest) (titan : Pubkey)
    → venue.protocol ≡ p
    → (venue.generate_swap_instruction request default_pubkey ≢ panic)
    → Safe
        (λ v. IsVenue v × IsVenueOf venue request v)
        (LegFailure venue request titan)
        (venue_of p venue request)
unfolding venue_of
venue_of-Safe protocol_raydium_amm venue request titan e calm =
    Safe-ok raydium_amm (tt, of_raydium e)
venue_of-Safe protocol_overpass venue request titan e calm =
    Safe->>= {Q = λ ix. venue.generate_swap_instruction request default_pubkey ≡ ok ix} _ _
      (record { no_panic = calm; result = λ ix h. h; error = λ x h. not_identified e h })
      λ ix h _.
        Safe-if (ltb (length ix.data_bytes) 8) _ _
          (λ short. Safe-err _ (no_discriminator ix e h (ground arith)))
          λ long. Safe-ok _ (
            omega (arith, length-take 8 ix.data_bytes, (ltb→le _ _ long)),
            of_overpass ix e h (ltb→le _ _ long),
          )

-- Where the venue generates instructions without a panic, `build_swap_leg` returns a leg or fails
-- for one of the three reasons. The leg has the given indices and weight and the venue of its
-- protocol, with the discriminator of an Overpass venue's instruction. It has the accounts of the
-- instruction in order and then the program, read only; the account of the route does not sign,
-- and the other accounts are unchanged. Its count of them is exact for fewer than 2^8 accounts, and
-- modulo 2^8 for more.
pub build_swap_leg-IsLeg :
    (venue : LegVenue) (request : QuoteRequest) (titan : Pubkey) (from to weight : ℕ)
    → ((user : Pubkey) → venue.generate_swap_instruction request user ≢ panic)
    → Safe
        (IsLeg venue request titan from to weight)
        (LegFailure venue request titan)
        (build_swap_leg venue request titan from to weight)
unfolding build_swap_leg protocol_to_venue
build_swap_leg-IsLeg venue request titan from to weight calm =
    Safe->>= {Q = λ ix. venue.generate_swap_instruction request titan ≡ ok ix} _ _
      (record { no_panic = calm titan; result = λ ix h. h; error = λ x h. not_generated h })
      λ ix h _.
        Safe->>= _ _ (venue_of-Safe venue.protocol venue request titan refl (calm default_pubkey))
          λ v _ fv.
            let are = assemble_leg_accounts-IsLegAccounts ix titan venue.venue_program_id in
            Safe-ok _ (record {
              swap_ix = ix;
              generated = h;
              are_accounts = are;
              counted = ap (λ (n : ℕ). n % 2 ^ 8) are.count;
              few_counted = λ few. omega (arith, few);
              is_venue = fv.1;
              is_from = refl;
              is_to = refl;
              is_weight = refl;
              fits = λ ff ft fw. record {
                venue_fits = fv.0;
                from_fits = ff;
                to_fits = ft;
                weight_fits = fw;
                count_fits = omega arith;
              };
            })
