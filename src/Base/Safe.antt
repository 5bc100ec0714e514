-- ===== src/Base/Safe.antt =====
-- What a fallible call guarantees: it does not panic, its result satisfies `P` and its error `E`.
-- One rule for each step of a `do` block.
use mathlib.Core.Path.{subst}
use overpass_titan_venue.Base.{
  ◌≡◌, refl, sym, ◌≢◌, Bool, true, false, Option, none, some, Outcome, ok, err, panic,
  TradingVenueError, ◌>>=◌, ok_or, or_panic, fail_if, if◌then◌else◌,
}

pub record Safe {A : Type 0} (P : A → Type 0) (E : TradingVenueError → Type 0) (o : Outcome A)
    : Type 0 where
  pub no_panic : o ≢ panic
  pub result : (a : A) → o ≡ ok a → P a
  pub error : (e : TradingVenueError) → o ≡ err e → E e

pub Safe-guard :
    {P : Unit {0} → Type 0} {E : TradingVenueError → Type 0} (b : Bool) (e : TradingVenueError)
    → E e
    → (b ≡ false → P tt)
    → Safe P E (fail_if b e)
unfolding fail_if
Safe-guard {E = E} true e h p = record {
  no_panic = λ q. cc;
  result = λ a q. absurd cc;
  error = λ e' q. subst E {x = e} {y = e'} (cc) h;
}
Safe-guard false e h p = record {
  no_panic = λ q. cc;
  result = λ a q. p refl;
  error = λ e' q. absurd cc;
}

module _ {A : Type 0} {P : A → Type 0} {E : TradingVenueError → Type 0} where
  pub Safe-ok : (a : A) → P a → Safe P E (ok a)
  Safe-ok a p = record {
    no_panic = λ h. cc;
    result = λ b h. subst P (cc) p;
    error = λ e h. absurd cc;
  }

  pub Safe-err : (e : TradingVenueError) → E e → Safe P E (err e)
  Safe-err e p = record {
    no_panic = λ h. cc;
    result = λ b h. absurd cc;
    error = λ e' h. subst E (cc) p;
  }

  pub Safe-ok_or :
      (o : Option A) (e : TradingVenueError)
      → E e
      → ((a : A) → o ≡ some a → P a)
      → Safe P E (ok_or o e)
  unfolding ok_or
  Safe-ok_or none e h p = Safe-err e h
  Safe-ok_or (some a) e h p = Safe-ok a (p a refl)

  pub Safe-ok_or_when :
      (o : Option A) (e : TradingVenueError)
      → (o ≡ none → E e)
      → ((a : A) → o ≡ some a → P a)
      → Safe P E (ok_or o e)
  unfolding ok_or
  Safe-ok_or_when none e h p = Safe-err e (h refl)
  Safe-ok_or_when (some a) e h p = Safe-ok a (p a refl)

  pub Safe-if :
      (b : Bool) (m n : Outcome A)
      → (b ≡ true → Safe P E m)
      → (b ≡ false → Safe P E n)
      → Safe P E (if b then m else n)
  Safe-if true m n sm sn = sm refl
  Safe-if false m n sm sn = sn refl

  pub Safe-fail_if :
      (b : Bool) (e : TradingVenueError) (f : Unit {0} → Outcome A)
      → E e
      → (b ≡ false → Safe P E (f tt))
      → Safe P E (fail_if b e >>= f)
  unfolding ◌>>=◌ fail_if
  Safe-fail_if true e f h k = Safe-err e h
  Safe-fail_if false e f h k = k refl

  -- With the reason for the error.
  pub Safe-fail_when :
      (b : Bool) (e : TradingVenueError) (f : Unit {0} → Outcome A)
      → (b ≡ true → E e)
      → (b ≡ false → Safe P E (f tt))
      → Safe P E (fail_if b e >>= f)
  unfolding ◌>>=◌ fail_if
  Safe-fail_when true e f h k = Safe-err e (h refl)
  Safe-fail_when false e f h k = k refl

  pub Safe-pass :
      (b : Bool) (e : TradingVenueError) (f : Unit {0} → Outcome A)
      → b ≡ false
      → Safe P E (f tt)
      → Safe P E (fail_if b e >>= f)
  unfolding ◌>>=◌ fail_if
  Safe-pass b e f h s = subst (λ b. Safe P E (fail_if b e >>= f)) (sym h) s

  pub Safe-weaken :
      {Q : A → Type 0} (o : Outcome A) → Safe Q E o → ((a : A) → o ≡ ok a → Q a → P a) → Safe P E o
  Safe-weaken o s k = record {
    no_panic = s.no_panic;
    result = λ a e. k a e (s.result a e);
    error = s.error;
  }

pub Safe-weaken_error :
    {A : Type 0} {P : A → Type 0} {E E' : TradingVenueError → Type 0} (o : Outcome A)
    → Safe P E o
    → ((e : TradingVenueError) → E e → E' e)
    → Safe P E' o
Safe-weaken_error o s k = record {
  no_panic = s.no_panic;
  result = s.result;
  error = λ e h. k e (s.error e h);
}

module _ {A B : Type 0} {P : B → Type 0} {E : TradingVenueError → Type 0} where
  pub Safe->>= :
      {Q : A → Type 0} (m : Outcome A) (f : A → Outcome B)
      → Safe Q E m
      → ((a : A) → m ≡ ok a → Q a → Safe P E (f a))
      → Safe P E (m >>= f)
  unfolding ◌>>=◌
  Safe->>= (ok a) f s k = k a refl (s.result a refl)
  Safe->>= (err e) f s k = Safe-err e (s.error e refl)
  Safe->>= panic f s k = absurd (s.no_panic refl)

  -- A step that is known to return.
  pub Safe-ok->>= :
      {a : A} (m : Outcome A) (f : A → Outcome B) → m ≡ ok a → Safe P E (f a) → Safe P E (m >>= f)
  unfolding ◌>>=◌
  Safe-ok->>= m f e s = subst (λ o. Safe P E (o >>= f)) (sym e) s

  pub Safe-ok_or->>= :
      (o : Option A) (e : TradingVenueError) (f : A → Outcome B)
      → E e
      → ((a : A) → o ≡ some a → Safe P E (f a))
      → Safe P E (ok_or o e >>= f)
  unfolding ◌>>=◌ ok_or
  Safe-ok_or->>= none e f h k = Safe-err e h
  Safe-ok_or->>= (some a) e f h k = k a refl

  pub Safe-ok_or_when->>= :
      (o : Option A) (e : TradingVenueError) (f : A → Outcome B)
      → (o ≡ none → E e)
      → ((a : A) → o ≡ some a → Safe P E (f a))
      → Safe P E (ok_or o e >>= f)
  unfolding ◌>>=◌ ok_or
  Safe-ok_or_when->>= none e f h k = Safe-err e (h refl)
  Safe-ok_or_when->>= (some a) e f h k = k a refl

  pub Safe-or_panic->>= :
      (o : Option A) {a : A} (f : A → Outcome B)
      → o ≡ some a
      → Safe P E (f a)
      → Safe P E (or_panic o >>= f)
  unfolding ◌>>=◌ or_panic
  Safe-or_panic->>= o f e s = rw e s

  pub Safe-some->>= :
      {a : A} (o : Option A) (e : TradingVenueError) (f : A → Outcome B)
      → o ≡ some a
      → Safe P E (f a)
      → Safe P E (ok_or o e >>= f)
  unfolding ok_or ◌>>=◌
  Safe-some->>= o e f h s = subst (λ o. Safe P E (ok_or o e >>= f)) (sym h) s

-- A call that returns, with what its value satisfies.
abbrev pub Returns : {A : Type 0} → (A → Type 0) → Outcome A → Type 0
Returns P o = Safe P (λ _. ⊥) o

pub Safe-returns :
    {A : Type 0} {P : A → Type 0} (o : Outcome A) → Safe P (λ _. ⊥) o → (a : A) × (o ≡ ok a) × P a
Safe-returns (ok a) s = (a, refl, s.result a refl)
Safe-returns (err e) s = absurd (s.error e refl)
Safe-returns panic s = absurd (s.no_panic refl)

-- What a call returned.
pub Safe-self : {A : Type 0} (o : Outcome A) → o ≢ panic → Safe (λ a. o ≡ ok a) (λ e. o ≡ err e) o
Safe-self o calm = record { no_panic = calm; result = λ a h. h; error = λ e h. h }
