-- ===== src/Venue/Trades.antt =====
-- The trades of the Overpass venue, described by the mints: which quote of the source and which
-- prices a request is answered with.
use overpass_titan_venue.Base.{
  ℕ, ◌≡◌, refl, ◌∙◌, ap, sym, Bool, true, false, List, [], ◌∷◌, Pubkey, bytes_eq, TradingVenueError,
  invalid_mint, static_str, ◌==◌, ◌&&◌, arith,
}
use overpass_titan_venue.Base.Safe.{Safe, Safe-ok, Safe-err, Safe-if}
use overpass_titan_venue.Common.State.{WrapperVault}
use overpass_titan_venue.Common.Direction.{Direction, deposit, withdraw, detect}
use overpass_titan_venue.TradingVenue.{QuoteRequest}

pub bytes_eq-equal : (xs ys : List ℕ) → bytes_eq xs ys ≡ true → xs ≡ ys
bytes_eq-equal [] [] h = refl
bytes_eq-equal [] (y ∷ ys) h = absurd cc
bytes_eq-equal (x ∷ xs) [] h = absurd cc
bytes_eq-equal (x ∷ xs) (y ∷ ys) h = go (x == y) refl (bytes_eq-equal xs ys) h
  where
    go :
        (b : Bool)
        → x == y ≡ b
        → (bytes_eq xs ys ≡ true → xs ≡ ys)
        → (elim b as (λ _. Bool) [ true ↦ bytes_eq xs ys | false ↦ false ]) ≡ true
        → x ∷ xs ≡ y ∷ ys
    go true e tails h = let head : x ≡ y = ground arith in let tail = tails h in cc
    go false e tails h = absurd cc

bytes_eq_same : (xs : List ℕ) → bytes_eq xs xs ≡ true
bytes_eq_same [] = refl
bytes_eq_same (x ∷ xs) = let e : x == x ≡ true = ground arith in rw (e, bytes_eq) (bytes_eq_same xs)

bytes_eq-found : (xs ys : List ℕ) → xs ≡ ys → bytes_eq xs ys ≡ true
bytes_eq-found xs ys e = ap (λ (zs : List ℕ). bytes_eq xs zs) (sym e) ∙ bytes_eq_same xs

-- The mints of a deposit and of a withdrawal.
abbrev pub Buys : WrapperVault → QuoteRequest → Type 0
Buys wv request =
    (request.input_mint ≡ wv.underlying_mint) × (request.output_mint ≡ wv.wrapper_mint)

abbrev pub Sells : WrapperVault → QuoteRequest → Type 0
Sells wv request =
    (request.input_mint ≡ wv.wrapper_mint) × (request.output_mint ≡ wv.underlying_mint)

-- The underlying mint for the wrapper mint is a deposit, and the other way round a withdrawal.
pub data IsTrade (wv : WrapperVault) (request : QuoteRequest) : Direction → Type 0 where
  buys : Buys wv request → IsTrade wv request deposit
  sells : ¬ Buys wv request → Sells wv request → IsTrade wv request withdraw

pub record NoTrade (wv : WrapperVault) (request : QuoteRequest) (e : TradingVenueError)
    : Type 0 where
  pub no_purchase : ¬ Buys wv request
  pub no_sale : ¬ Sells wv request
  pub is_told : e ≡ invalid_mint (static_str "unsupported mint pair")

both_equal : (a b c d : Pubkey) → bytes_eq a b && bytes_eq c d ≡ true → (a ≡ b) × (c ≡ d)
both_equal a b c d h = (bytes_eq-equal a b (ground arith), bytes_eq-equal c d (ground arith))

not_both : (a b c d : Pubkey) → bytes_eq a b && bytes_eq c d ≡ false → ¬ ((a ≡ b) × (c ≡ d))
not_both a b c d h e =
    let x = bytes_eq-found a b e.0 in let y = bytes_eq-found c d e.1 in absurd (ground arith)

pub detect-Safe :
    (wv : WrapperVault) (request : QuoteRequest)
    → Safe
        (IsTrade wv request)
        (NoTrade wv request)
        (detect wv request.input_mint request.output_mint)
unfolding detect
detect-Safe wv request =
    Safe-if
      (bytes_eq request.input_mint wv.underlying_mint
        && bytes_eq request.output_mint wv.wrapper_mint)
      _ _ (λ h. Safe-ok deposit (buys (both_equal _ _ _ _ h)))
      λ n.
        Safe-if
          (bytes_eq request.input_mint wv.wrapper_mint
            && bytes_eq request.output_mint wv.underlying_mint)
          _ _ (λ h. Safe-ok withdraw (sells (not_both _ _ _ _ n) (both_equal _ _ _ _ h)))
          λ m. Safe-err _ (record {
            no_purchase = not_both _ _ _ _ n;
            no_sale = not_both _ _ _ _ m;
            is_told = refl;
          })
