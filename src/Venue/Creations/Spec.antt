-- ===== src/Venue/Creations/Spec.antt =====
-- What the parser finds, described by the instructions that create a pool.
use overpass_titan_venue.Base.{
  ℕ, ◌≤◌, ◌≡◌, refl, sym, Bool, true, false, List, [], ◌∷◌, Option, none, some, Pubkey, bytes_eq,
  get_elem?, length, take, ltb, ltb→le, ◌⊎◌, inl, inr, arith, if◌then◌else◌,
}
use mathlib.Core.Path.{subst₂}
use overpass_titan_venue.Shares.{and_then}
use overpass_titan_venue.Venue.Trades.{bytes_eq-equal}
use overpass_titan_venue.SwapRoute.{protocol_overpass}
use overpass_titan_venue.Venue.Creations.{
  overpass_program_id, ParsedInstruction, PoolCreation, create_klend, create_kvault, create_save,
  create_marginfi, create_lulo, creations, find_creation, creation_of, collect,
  parse_pool_creations,
}

-- The five instructions that create a pool, by their discriminators, and where they have the
-- underlying mint.
pub data IsCreation : List ℕ → ℕ → Type 0 where
  of_klend : IsCreation create_klend 7
  of_kvault : IsCreation create_kvault 7
  of_save : IsCreation create_save 7
  of_marginfi : IsCreation create_marginfi 9
  of_lulo : IsCreation create_lulo 9

-- An instruction of the program that creates the pool `c`.
pub record Creates (ix : ParsedInstruction) (c : PoolCreation) : Type 0 where
  pub index : ℕ
  pub wrapper : Pubkey
  pub underlying : Pubkey
  pub of_program : bytes_eq ix.program_id overpass_program_id ≡ true
  pub long_enough : 8 ≤ length ix.data_bytes
  pub is_creation : IsCreation (take 8 ix.data_bytes) index
  pub pool_at : get_elem? ix.accounts 4 ≡ some c.pool
  pub wrapper_at : get_elem? ix.accounts 3 ≡ some wrapper
  pub underlying_at : get_elem? ix.accounts index ≡ some underlying
  pub is_overpass : c.protocol ≡ protocol_overpass
  pub are_mints : c.mints ≡ underlying ∷ wrapper ∷ []

-- The pools of a list of instructions, in their order.
pub data Parses : List ParsedInstruction → List PoolCreation → Type 0 where
  parsed : Parses [] []
  created :
      (ix : ParsedInstruction) (c : PoolCreation) (ixs : List ParsedInstruction)
      (cs : List PoolCreation)
      → Creates ix c
      → Parses ixs cs
      → Parses (ix ∷ ixs) (c ∷ cs)
  skipped :
      (ix : ParsedInstruction) (ixs : List ParsedInstruction) (cs : List PoolCreation)
      → ((c : PoolCreation) → ¬ Creates ix c)
      → Parses ixs cs
      → Parses (ix ∷ ixs) cs

find_creation-found :
    (disc : List ℕ) (i : ℕ) → IsCreation disc i → find_creation disc creations ≡ some i
unfolding find_creation
find_creation-found _ _ of_klend = refl
find_creation-found _ _ of_kvault = refl
find_creation-found _ _ of_save = refl
find_creation-found _ _ of_marginfi = refl
find_creation-found _ _ of_lulo = refl

creation_of-some :
    (ix : ParsedInstruction) (c : PoolCreation) → Creates ix c → creation_of ix ≡ some c
unfolding creation_of
creation_of-some ix c made =
    let short : ltb (length ix.data_bytes) 8 ≡ false = ground (arith, made.long_enough) in
    rw
      (
        short,
        find_creation-found (take 8 ix.data_bytes) made.index made.is_creation,
        made.pool_at,
        made.wrapper_at,
        made.underlying_at,
        sym made.are_mints,
        sym made.is_overpass,
      )
      refl

-- One step of the search.
found_or_later :
    (b : Bool) (d disc : List ℕ) (j i : ℕ) (later : Option ℕ)
    → bytes_eq d disc ≡ b
    → (if b then some j else later) ≡ some i
    → (d ≡ disc) × (j ≡ i) ⊎ (later ≡ some i)
found_or_later true d disc j i later e h = inl (bytes_eq-equal d disc e, cc)
found_or_later false d disc j i later e h = inr h

find_creation-IsCreation :
    (disc : List ℕ) (i : ℕ) → find_creation disc creations ≡ some i → IsCreation disc i
unfolding find_creation
find_creation-IsCreation disc i h = elim (found_or_later _ create_klend disc 7 i _ refl h) [
  | inl e ↦ subst₂ IsCreation e.0 e.1 of_klend
  | inr h ↦ elim (found_or_later _ create_kvault disc 7 i _ refl h) [
    | inl e ↦ subst₂ IsCreation e.0 e.1 of_kvault
    | inr h ↦ elim (found_or_later _ create_save disc 7 i _ refl h) [
      | inl e ↦ subst₂ IsCreation e.0 e.1 of_save
      | inr h ↦ elim (found_or_later _ create_marginfi disc 9 i _ refl h) [
        | inl e ↦ subst₂ IsCreation e.0 e.1 of_marginfi
        | inr h ↦ elim (found_or_later _ create_lulo disc 9 i _ refl h) [
          | inl e ↦ subst₂ IsCreation e.0 e.1 of_lulo
          | inr h ↦ absurd cc
        ]
      ]
    ]
  ]
]

and_then-some :
    {A B : Type 0} (o : Option A) (f : A → Option B) (c : B)
    → and_then o f ≡ some c
    → (a : A) × (o ≡ some a) × (f a ≡ some c)
and_then-some none f c h = absurd cc
and_then-some (some a) f c h = (a, refl, h)

creation_of-Creates :
    (ix : ParsedInstruction) (c : PoolCreation)
    → bytes_eq ix.program_id overpass_program_id ≡ true
    → creation_of ix ≡ some c
    → Creates ix c
unfolding creation_of
creation_of-Creates ix c program h = go (ltb (length ix.data_bytes) 8) refl h
  where
    rest : Option PoolCreation
    rest = and_then (find_creation (take 8 ix.data_bytes) creations) (λ i.
        and_then (get_elem? ix.accounts 4) (λ pool. and_then (get_elem? ix.accounts 3) (λ w.
          and_then (get_elem? ix.accounts i) (λ u.
            some (record { protocol = protocol_overpass; pool = pool; mints = u ∷ w ∷ [] })))))

    go :
        (b : Bool)
        → ltb (length ix.data_bytes) 8 ≡ b
        → (if b then none else rest) ≡ some c
        → Creates ix c
    go true e h = absurd cc
    go false e h =
        let (i, hi, h1) = and_then-some (find_creation (take 8 ix.data_bytes) creations) _ c h in
        let (pool, hp, h2) = and_then-some (get_elem? ix.accounts 4) _ c h1 in
        let (w, hw, h3) = and_then-some (get_elem? ix.accounts 3) _ c h2 in
        let (u, hu, h4) = and_then-some (get_elem? ix.accounts i) _ c h3 in
        record {
          index = i;
          wrapper = w;
          underlying = u;
          of_program = program;
          long_enough = ltb→le _ _ e;
          is_creation = find_creation-IsCreation (take 8 ix.data_bytes) i hi;
          pool_at = cc;
          wrapper_at = hw;
          underlying_at = hu;
          is_overpass = cc;
          are_mints = cc;
        }

-- `parse_pool_creations` returns the pools that the instructions of the program create, in their
-- order, one for each instruction that has the discriminator and the accounts of a creation, and
-- no other.
pub parse_pool_creations-Parses :
    (ixs : List ParsedInstruction) → Parses ixs (parse_pool_creations ixs)
unfolding parse_pool_creations collect
parse_pool_creations-Parses [] = parsed
parse_pool_creations-Parses (ix ∷ ixs) =
    step (bytes_eq ix.program_id overpass_program_id) refl (creation_of ix) refl
      (parse_pool_creations-Parses ixs)
  where
    step :
        (b : Bool)
        → bytes_eq ix.program_id overpass_program_id ≡ b
        → (o : Option PoolCreation) → creation_of ix ≡ o
        → Parses ixs (parse_pool_creations ixs)
        → Parses
            (ix ∷ ixs)
            (if b then collect o (parse_pool_creations ixs) else parse_pool_creations ixs)
    step true e (some c) h others = created ix c ixs _ (creation_of-Creates ix c e h) others
    step true e none h others =
        skipped ix ixs _ (λ c made. let x = creation_of-some ix c made in absurd cc) others
    step false e o h others =
        skipped ix ixs _ (λ c made. let x = made.of_program in absurd cc) others
