-- ===== src/Bounds/Probe.antt =====
-- What a probe of the quote function says, as a test on inputs.
use overpass_titan_venue.Base.{ℕ, ◌≡◌, refl, ◌≢◌, Bool, false, Outcome, ok, err, panic, IsU64}
use overpass_titan_venue.TradingVenue.{QuoteResult}
use overpass_titan_venue.Bounds.{valid_quote, probe}

-- Whether an outcome counts as a valid quote.
abbrev pub is_valid : {F : Type 0} → Outcome (QuoteResult F) → Bool
is_valid (ok result) = valid_quote result
is_valid (err _) = false
is_valid panic = false

-- The quote function returns, with a result or an error, at every input of its type.
abbrev pub NeverPanics : {F : Type 0} → (ℕ → Outcome (QuoteResult F)) → Type 0
NeverPanics f = (x : ℕ) → IsU64 x → f x ≢ panic

pub probe_lem : {F : Type 0} (o : Outcome (QuoteResult F)) → o ≢ panic → probe o ≡ ok (is_valid o)
unfolding probe
probe_lem (ok result) h = refl
probe_lem (err _) h = refl
probe_lem panic h = absurd (h refl)
