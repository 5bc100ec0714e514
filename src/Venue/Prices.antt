-- ===== src/Venue/Prices.antt =====
-- `price_parts` of `src/your_venue/mod.rs`, and the price that a quote looks up in its result.
-- `f64` is a parameter, with the operations that the source uses.
pub mod Order
pub mod Total
pub mod Lookup
use overpass_titan_venue.Base.{
  ℕ, zero, suc, ◌+◌, ◌-◌, ◌/◌, Bool, ◌&&◌, true, false, List, [], ◌∷◌, ◌++◌, Option, none, some,
  Outcome, ok, err, panic, ◌>>=◌, ltb, leb, ◌==◌, if◌then◌else◌,
}

-- `as f64` of an unsigned integer, `/`, `<` and `0.0`.
pub record Double (F : Type 0) : Type 0 where
  pub of_u64 : ℕ → F
  pub div : F → F → F
  pub lt : F → F → Bool
  pub zero_price : F

abbrev pub price_floor : ℕ
price_floor = 100_000

-- The edges that the loop pushes; it halves at most 64 times. Using up the fuel counts as a panic.
unfoldable pub halve : ℕ → ℕ → ℕ → Outcome (List ℕ)
halve zero lb c = panic
halve (suc fuel) lb c =
    let rest = halve fuel lb (c / 2) in
    if ltb price_floor (c / 2) && ltb lb (c / 2) then (do more ← rest; ok (c / 2 ∷ more)) else ok []

-- `sort_unstable`, by insertion.
unfoldable pub insert : ℕ → List ℕ → List ℕ
insert x [] = x ∷ []
insert x (y ∷ ys) = if leb x y then x ∷ y ∷ ys else y ∷ insert x ys

unfoldable pub sort : List ℕ → List ℕ
unfolding insert
sort [] = []
sort (x ∷ xs) = insert x (sort xs)

-- `dedup`: consecutive equal numbers become one.
unfoldable pub dedup : List ℕ → List ℕ
dedup [] = []
dedup (x ∷ []) = x ∷ []
dedup (x ∷ y ∷ ys) = if x == y then dedup (y ∷ ys) else x ∷ dedup (y ∷ ys)

unfoldable pub to_option : Outcome ℕ → Outcome (Option ℕ)
to_option (ok a) = ok (some a)
to_option (err e) = ok none
to_option panic = panic

unfoldable pub new_part :
    {F : Type 0} → ⦃d : Double F⦄ → ℕ → ℕ → Option ℕ → Option ℕ → List (ℕ × F) → List (ℕ × F)
new_part ⦃d⦄ a b (some oa) (some ob) parts =
    if ltb oa ob then (a, d.div (d.of_u64 (ob - oa)) (d.of_u64 (b - a))) ∷ parts else parts
new_part a b (some oa) none parts = parts
new_part a b none ob parts = parts

-- The loop over the windows of two edges; the quote is turned into an option by `ok()`.
unfoldable pub parts_of :
    {F : Type 0} → ⦃d : Double F⦄ → (ℕ → Outcome ℕ) → List ℕ → Outcome (List (ℕ × F))
unfolding to_option new_part
parts_of quote [] = ok []
parts_of quote (a ∷ []) = ok []
parts_of quote (a ∷ b ∷ edges) = do
  oa ← to_option (quote a)
  ob ← to_option (quote b)
  parts ← parts_of quote (b ∷ edges)
  ok (new_part a b oa ob parts)

unfoldable pub raise_to : {F : Type 0} → ⦃d : Double F⦄ → ℕ → F → List (ℕ × F) → List (ℕ × F)
raise_to c p [] = (c, p) ∷ []
raise_to ⦃d⦄ c p (next ∷ parts) = (c, if d.lt p next.1 then next.1 else p) ∷ next ∷ parts

-- The last loop, from the end: no price is below the next one.
unfoldable pub raise : {F : Type 0} → ⦃d : Double F⦄ → List (ℕ × F) → List (ℕ × F)
unfolding raise_to
raise [] = []
raise (part ∷ parts) = raise_to part.0 part.1 (raise parts)

unfoldable pub price_parts :
    {F : Type 0} → ⦃d : Double F⦄ → Option (ℕ × ℕ) → (ℕ → Outcome ℕ) → Outcome (List (ℕ × F))
unfolding halve sort dedup parts_of raise
price_parts none quote = ok []
price_parts (some range) quote = if leb range.1 range.0 then ok [] else (do
  more ← halve 64 range.0 range.1
  let edges = dedup (sort (range.1 ∷ (more ++ (range.0 ∷ []))))
  parts ← parts_of quote edges
  ok (raise parts))

-- The last part that starts at the amount or before it, from the end.
unfoldable pub later : {F : Type 0} → Option F → ℕ × F → ℕ → Option F
later (some p) part amount = some p
later none part amount = if leb part.0 amount then some part.1 else none

unfoldable pub last_at : {F : Type 0} → List (ℕ × F) → ℕ → Option F
unfolding later
last_at [] amount = none
last_at (part ∷ parts) amount = later (last_at parts amount) part amount

unfoldable pub or_first : {F : Type 0} → Option F → F → F
or_first (some p) first = p
or_first none first = first

-- The price of a quote: that part's, else the first one's, else zero.
unfoldable pub price_at : {F : Type 0} → ⦃d : Double F⦄ → List (ℕ × F) → ℕ → F
unfolding last_at or_first
price_at ⦃d⦄ [] amount = d.zero_price
price_at (first ∷ parts) amount = or_first (last_at (first ∷ parts) amount) first.1
