-- ===== src/Venue/Prices/Lookup.antt =====
-- The price of an amount, described by the edges of the parts.
use overpass_titan_venue.Base.{
  ℕ, zero, suc, ◌≤◌, ◌<◌, ◌≡◌, refl, List, [], ◌∷◌, Option, none, some, Bool, true, false, leb,
  get_elem?, arith, if◌then◌else◌,
}
use mathlib.Core.Path.{subst}
use overpass_titan_venue.Venue.Prices.{Double, later, last_at, or_first, price_at}

-- Every part after the place `i` starts above the amount.
abbrev pub AboveAfter : {F : Type 0} → ℕ → ℕ → List (ℕ × F) → Type 0
AboveAfter {F} amount i parts =
    (j : ℕ) (part : ℕ × F) → i ≤ j → get_elem? parts j ≡ some part → amount < part.0

-- The price is that of the last part that starts at the amount or below, that of the first part
-- where all start above it, and zero without parts.
pub data IsPrice {F : Type 0} ⦃d : Double F⦄ (amount : ℕ) : List (ℕ × F) → F → Type 0 where
  without_parts : IsPrice amount [] d.zero_price
  of_last :
      (parts : List (ℕ × F)) (i : ℕ) (part : ℕ × F)
      → get_elem? parts i ≡ some part
      → part.0 ≤ amount
      → AboveAfter amount (suc i) parts
      → IsPrice amount parts part.1
  of_first :
      (first : ℕ × F) (parts : List (ℕ × F))
      → AboveAfter amount 0 (first ∷ parts)
      → IsPrice amount (first ∷ parts) first.1

module _ {F : Type 0} ⦃d : Double F⦄ where
  data IsLast (amount : ℕ) (parts : List (ℕ × F)) : Option F → Type 0 where
    found :
        (i : ℕ) (part : ℕ × F)
        → get_elem? parts i ≡ some part
        → part.0 ≤ amount
        → AboveAfter amount (suc i) parts
        → IsLast amount parts (some part.1)
    none_found : AboveAfter amount 0 parts → IsLast amount parts none

  AboveAfter-suc :
      (amount i : ℕ) (first : ℕ × F) (parts : List (ℕ × F))
      → AboveAfter amount i parts
      → AboveAfter amount (suc i) (first ∷ parts)
  AboveAfter-suc amount i first parts above zero part le h = absurd (omega arith)
  AboveAfter-suc amount i first parts above (suc j) part le h = above j part (omega arith) h

  AboveAfter-all :
      (amount : ℕ) (first : ℕ × F) (parts : List (ℕ × F))
      → amount < first.0
      → AboveAfter amount 0 parts
      → AboveAfter amount 0 (first ∷ parts)
  AboveAfter-all amount first parts low above zero part le h =
      let e : first ≡ part = cc in subst (λ (p : ℕ × F). amount < p.0) e low
  AboveAfter-all amount first parts low above (suc j) part le h = above j part (omega arith) h

  last_at-IsLast : (amount : ℕ) (parts : List (ℕ × F)) → IsLast amount parts (last_at parts amount)
  unfolding last_at later
  last_at-IsLast amount [] = none_found (λ j part le h. absurd cc)
  last_at-IsLast amount (first ∷ parts) = go (last_at parts amount) (last_at-IsLast amount parts)
    where
      here :
          (b : Bool)
          → leb first.0 amount ≡ b
          → AboveAfter amount 0 parts
          → IsLast amount (first ∷ parts) (if b then some first.1 else none)
      here true e above =
          found 0 first refl (ground arith) (AboveAfter-suc amount 0 first parts above)
      here false e above = none_found (AboveAfter-all amount first parts (ground arith) above)

      go :
          (o : Option F)
          → IsLast amount parts o
          → IsLast amount (first ∷ parts) (later o first amount)
      go _ (found i part h le above) =
          found (suc i) part h le (AboveAfter-suc amount (suc i) first parts above)
      go _ (none_found above) = here (leb first.0 amount) refl above

  pub price_at-IsPrice :
      (parts : List (ℕ × F)) (amount : ℕ) → IsPrice amount parts (price_at parts amount)
  unfolding price_at or_first
  price_at-IsPrice [] amount = without_parts
  price_at-IsPrice (first ∷ parts) amount =
      go (last_at (first ∷ parts) amount) (last_at-IsLast amount (first ∷ parts))
    where
      go :
          (o : Option F)
          → IsLast amount (first ∷ parts) o
          → IsPrice amount (first ∷ parts) (or_first o first.1)
      go _ (found i part h le above) = of_last (first ∷ parts) i part h le above
      go _ (none_found above) = of_first first parts above
