-- ===== src/Venue/Prices/Total.antt =====
-- The prices of a range of 64 bits are found, for a source that does not panic, and larger amounts
-- get no better one.
use native.Mathlib.Nat.{pow-suc}
use overpass_titan_venue.Base.{
  ℕ, zero, suc, ◌+◌, ◌/◌, ◌^◌, ◌≤◌, ◌<◌, ◌≡◌, ◌≢◌, refl, Bool, true, false, ◌&&◌, List, [], ◌∷◌,
  ◌++◌, Option, none, some, Outcome, ok, err, panic, ltb, leb, arith, if◌then◌else◌, ◌==◌, IsU64,
}
use overpass_titan_venue.Base.Safe.{Safe-ok, Safe-if, Safe->>=, Safe-returns, Returns}
use overpass_titan_venue.Venue.Prices.{
  Double, price_floor, halve, insert, sort, dedup, to_option, parts_of, raise, price_parts,
  price_at,
}
use overpass_titan_venue.Venue.Prices.Order.{IsOrder, raise-AreFalling, price_at-falls}

-- Every number of the list has 64 bits.
abbrev AreWide : List ℕ → Type 0
AreWide [] = Unit {0}
AreWide (x ∷ xs) = IsU64 x × AreWide xs

if_wide : (b : Bool) (xs ys : List ℕ) → AreWide xs → AreWide ys → AreWide (if b then xs else ys)
if_wide true xs ys hx hy = hx
if_wide false xs ys hx hy = hy

append-AreWide : (xs ys : List ℕ) → AreWide xs → AreWide ys → AreWide (xs ++ ys)
append-AreWide [] ys hx hy = hy
append-AreWide (x ∷ xs) ys hx hy = (hx.0, append-AreWide xs ys hx.1 hy)

insert-AreWide : (x : ℕ) (ys : List ℕ) → IsU64 x → AreWide ys → AreWide (insert x ys)
unfolding insert
insert-AreWide x [] hx hy = (hx, tt)
insert-AreWide x (y ∷ ys) hx hy = if_wide (leb x y) _ _ (hx, hy) (hy.0, insert-AreWide x ys hx hy.1)

sort-AreWide : (xs : List ℕ) → AreWide xs → AreWide (sort xs)
unfolding sort
sort-AreWide [] h = tt
sort-AreWide (x ∷ xs) h = insert-AreWide x (sort xs) h.0 (sort-AreWide xs h.1)

dedup-AreWide : (xs : List ℕ) → AreWide xs → AreWide (dedup xs)
unfolding dedup
dedup-AreWide [] h = tt
dedup-AreWide (x ∷ []) h = h
dedup-AreWide (x ∷ y ∷ ys) h =
    let rest = dedup-AreWide (y ∷ ys) h.1 in if_wide (x == y) _ _ rest (h.0, rest)

-- Enough fuel: `c` halves at most `fuel` times before it is below the floor.
halve-Returns :
    (fuel lb c : ℕ) → c < 2 ^ (fuel + 15) → IsU64 c → Returns AreWide (halve (suc fuel) lb c)
unfolding halve
halve-Returns zero lb c small wide =
    Safe-if (ltb price_floor (c / 2) && ltb lb (c / 2)) _ _ (λ h. absurd (ground arith))
      λ _. Safe-ok [] tt
halve-Returns (suc fuel) lb c small wide =
    let e : suc fuel + 15 ≡ suc (fuel + 15) = omega arith in
    let small' : c < 2 ^ suc (fuel + 15) = rw e at small in
    Safe-if (ltb price_floor (c / 2) && ltb lb (c / 2)) _ _
      (λ _.
        Safe->>= _ _
          (halve-Returns fuel lb (c / 2) (omega (arith, small', pow-suc 2 (fuel + 15)))
            (omega (arith, wide)))
          λ more _ w. Safe-ok _ (omega (arith, wide), w))
      λ _. Safe-ok [] tt

to_option-Returns : (o : Outcome ℕ) → o ≢ panic → Returns (λ _. Unit {0}) (to_option o)
unfolding to_option
to_option-Returns (ok v) h = Safe-ok _ tt
to_option-Returns (err e) h = Safe-ok _ tt
to_option-Returns panic h = absurd (h refl)

-- The upper end of the range has 64 bits.
abbrev pub IsWideRange : Option (ℕ × ℕ) → Type 0
IsWideRange none = Unit {0}
IsWideRange (some range) = IsU64 range.1

module _ {F : Type 0} ⦃d : Double F⦄ where
  parts_of-Returns :
      (quote : ℕ → Outcome ℕ) (edges : List ℕ)
      → ((x : ℕ) → IsU64 x → quote x ≢ panic)
      → AreWide edges
      → Returns (λ _. Unit {0}) (parts_of {F = F} quote edges)
  unfolding parts_of
  parts_of-Returns quote [] calm wide = Safe-ok [] tt
  parts_of-Returns quote (a ∷ []) calm wide = Safe-ok [] tt
  parts_of-Returns quote (a ∷ b ∷ edges) calm wide =
      Safe->>= _ _ (to_option-Returns (quote a) (calm a wide.0)) λ oa _ _.
        Safe->>= _ _ (to_option-Returns (quote b) (calm b wide.1.0)) λ ob _ _.
          Safe->>= _ _ (parts_of-Returns quote (b ∷ edges) calm wide.1) λ parts _ _. Safe-ok _ tt

  -- The price that a quote looks up never rises with the amount.
  abbrev pub NeverRises : List (ℕ × F) → Type 0
  NeverRises parts = (a b : ℕ) → a ≤ b → d.lt (price_at parts a) (price_at parts b) ≡ false

  pub price_parts-Returns :
      IsOrder d
      → (range : Option (ℕ × ℕ)) (quote : ℕ → Outcome ℕ) → IsWideRange range
      → ((x : ℕ) → IsU64 x → quote x ≢ panic)
      → Returns NeverRises (price_parts range quote)
  unfolding price_parts
  price_parts-Returns order none quote wide calm =
      Safe-ok [] λ a b le. price_at-falls order [] a b tt le
  price_parts-Returns order (some range) quote wide calm =
      Safe-if (leb range.1 range.0) _ _
        (λ _. Safe-ok [] λ a b le. price_at-falls order [] a b tt le)
        λ lt. Safe->>= _ _ (halve-Returns 63 range.0 range.1 (omega (arith, wide)) wide) λ more _ w.
          let ends = append-AreWide more (range.0 ∷ []) w (ground arith, tt) in
          Safe->>= _ _
            (parts_of-Returns quote _ calm
              (dedup-AreWide _ (sort-AreWide (range.1 ∷ (more ++ (range.0 ∷ []))) (wide, ends))))
            λ parts _ _.
              Safe-ok (raise parts)
                λ a b le. price_at-falls order (raise parts) a b (raise-AreFalling order parts) le

  -- For a range of 64 bits and a source that does not panic at such an amount, `price_parts`
  -- returns, and where `<` on `f64` is an order of numbers, the price that a quote looks up in its
  -- result never rises with the amount.
  pub price_parts_falling :
      IsOrder d
      → (range : Option (ℕ × ℕ)) (quote : ℕ → Outcome ℕ) → IsWideRange range
      → ((x : ℕ) → IsU64 x → quote x ≢ panic)
      → (parts : List (ℕ × F)) × (price_parts range quote ≡ ok parts) × NeverRises parts
  price_parts_falling order range quote wide calm =
      Safe-returns (price_parts range quote) (price_parts-Returns order range quote wide calm)
