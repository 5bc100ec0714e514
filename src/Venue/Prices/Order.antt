-- ===== src/Venue/Prices/Order.antt =====
-- The prices of the venue: they are found without a panic, and larger amounts get no better one.
use native.Mathlib.Nat.{le_trans}
use overpass_titan_venue.Base.{
  ℕ, ◌≤◌, ◌≡◌, ◌⊎◌, inl, inr, refl, Bool, true, false, List, [], ◌∷◌, Option, none, some, leb,
  arith, if◌then◌else◌,
}
use overpass_titan_venue.Venue.Prices.{Double, raise_to, raise, later, last_at, or_first, price_at}

-- The order of `f64` on values that are numbers: none is below itself, and "not below" passes on.
pub record IsOrder {F : Type 0} (d : Double F) : Type 0 where
  pub irreflexive : (p : F) → d.lt p p ≡ false
  pub transitive : (p q r : F) → d.lt p q ≡ false → d.lt q r ≡ false → d.lt p r ≡ false

module _ {F : Type 0} ⦃d : Double F⦄ (order : IsOrder d) where
  -- No later price is above `p`.
  abbrev pub Caps : F → List (ℕ × F) → Type 0
  Caps p [] = Unit {0}
  Caps p (part ∷ parts) = (d.lt p part.1 ≡ false) × Caps p parts

  abbrev pub AreFalling : List (ℕ × F) → Type 0
  AreFalling [] = Unit {0}
  AreFalling (part ∷ parts) = Caps part.1 parts × AreFalling parts

  Caps-transitive :
      (p q : F) (parts : List (ℕ × F)) → d.lt p q ≡ false → Caps q parts → Caps p parts
  Caps-transitive p q [] h c = tt
  Caps-transitive p q (part ∷ parts) h c =
      (order.transitive p q part.1 h c.0, Caps-transitive p q parts h c.1)

  raised : (p q : F) (b : Bool) → d.lt p q ≡ b → d.lt (if b then q else p) q ≡ false
  raised p q true h = order.irreflexive q
  raised p q false h = h

  raise_to-AreFalling :
      (c : ℕ) (p : F) (parts : List (ℕ × F)) → AreFalling parts → AreFalling (raise_to c p parts)
  unfolding raise_to
  raise_to-AreFalling c p [] falling = (tt, tt)
  raise_to-AreFalling c p (next ∷ parts) falling =
      let top = raised p next.1 (d.lt p next.1) refl in
      ((top, Caps-transitive _ next.1 parts top falling.0), falling)

  pub raise-AreFalling : (parts : List (ℕ × F)) → AreFalling (raise parts)
  unfolding raise
  raise-AreFalling [] = tt
  raise-AreFalling (part ∷ parts) =
      raise_to-AreFalling part.0 part.1 (raise parts) (raise-AreFalling parts)

  later_cases :
      (o : Option F) (part : ℕ × F) (b : ℕ) (q : F)
      → later o part b ≡ some q
      → (o ≡ some q) ⊎ (o ≡ none) × (part.0 ≤ b) × (part.1 ≡ q)
  unfolding later
  later_cases (some p) part b q h = inl h
  later_cases none part b q h = let r = go (leb part.0 b) refl h in inr (refl, r.0, r.1)
    where
      go :
          (c : Bool)
          → leb part.0 b ≡ c
          → (if c then some part.1 else none) ≡ some q
          → (part.0 ≤ b) × (part.1 ≡ q)
      go true e h = (ground arith, cc)
      go false e h = absurd cc

  last_at-Caps :
      (p q : F) (parts : List (ℕ × F)) (b : ℕ)
      → Caps p parts
      → last_at parts b ≡ some q
      → d.lt p q ≡ false
  unfolding last_at
  last_at-Caps p q [] b caps h = absurd cc
  last_at-Caps p q (part ∷ parts) b caps h = elim (later_cases (last_at parts b) part b q h) [
    | inl e ↦ last_at-Caps p q parts b caps.1 e
    | inr (n, le, e) ↦ rw (← e) caps.0
  ]

  last_at-none :
      (parts : List (ℕ × F)) (a b : ℕ) (p : F)
      → a ≤ b
      → last_at parts b ≡ none
      → last_at parts a ≡ some p
      → ⊥
  unfolding last_at later
  last_at-none [] a b p le hb ha = absurd cc
  last_at-none (part ∷ parts) a b p le hb ha = elim (later_cases (last_at parts a) part a p ha) [
    | inl e ↦ last_at-none parts a b p le (rest_none (last_at parts b) hb) e
    | inr (n, at, e) ↦ absurd (not_none (last_at parts b) (le_trans at le) hb)
  ]
    where
      not_none : (o : Option F) → part.0 ≤ b → later o part b ≡ none → ⊥
      not_none none at h = go (leb part.0 b) refl h
        where
          go : (c : Bool) → leb part.0 b ≡ c → (if c then some part.1 else none) ≡ none → ⊥
          go true e h = absurd cc
          go false e h = ground arith
      not_none (some q) at h = absurd cc

      rest_none : (o : Option F) → later o part b ≡ none → o ≡ none
      rest_none none h = refl
      rest_none (some q) h = absurd cc

  last_at-falls :
      (parts : List (ℕ × F)) (a b : ℕ) (p q : F)
      → AreFalling parts
      → a ≤ b
      → last_at parts a ≡ some p
      → last_at parts b ≡ some q
      → d.lt p q ≡ false
  unfolding last_at
  last_at-falls [] a b p q falling le ha hb = absurd cc
  last_at-falls (part ∷ parts) a b p q falling le ha hb =
      elim (later_cases (last_at parts a) part a p ha) [
        | inl ea ↦ elim (later_cases (last_at parts b) part b q hb) [
          | inl eb ↦ last_at-falls parts a b p q falling.1 le ea eb
          | inr (n, at, e) ↦ absurd (last_at-none parts a b p le n ea)
        ]
        | inr (n, at, e) ↦ elim (later_cases (last_at parts b) part b q hb) [
          | inl eb ↦ rw (← e) (last_at-Caps part.1 q parts b falling.0 eb)
          | inr (n', at', e') ↦ rw (← e, ← e') (order.irreflexive part.1)
        ]
      ]

  pub price_at-falls :
      (parts : List (ℕ × F)) (a b : ℕ)
      → AreFalling parts
      → a ≤ b
      → d.lt (price_at parts a) (price_at parts b) ≡ false
  unfolding price_at
  price_at-falls [] a b falling le = order.irreflexive d.zero_price
  price_at-falls (first ∷ parts) a b falling le =
      go (last_at (first ∷ parts) a) (last_at (first ∷ parts) b) refl refl
    where
      go :
          (o o' : Option F)
          → last_at (first ∷ parts) a ≡ o
          → last_at (first ∷ parts) b ≡ o'
          → d.lt (or_first o first.1) (or_first o' first.1) ≡ false
      go none none ea eb = order.irreflexive first.1
      go none (some q) ea eb =
          last_at-Caps first.1 q (first ∷ parts) b (order.irreflexive first.1, falling.0) eb
      go (some p) none ea eb = absurd (last_at-none (first ∷ parts) a b p le eb ea)
      go (some p) (some q) ea eb = last_at-falls (first ∷ parts) a b p q falling le ea eb
