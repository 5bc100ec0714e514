-- ===== src/Klend/Caps/Laws.antt =====
-- What `remaining_amount` of `src/your_venue/klend/withdrawal_caps.rs` guarantees.
use mathlib.Core.Path.{subst}
use mathlib.Core.Bool.{not}
use overpass_titan_venue.Base.{
  ℕ, ◌+◌, ◌-◌, ◌^◌, ◌≤◌, ◌<◌, ◌≡◌, refl, arith, leb, ◌==◌, if◌then◌else◌,
}
use overpass_titan_venue.Int.{ℤ, pos, negsuc, int_leb, nat_sub, int_sub, int_to_u64}
use overpass_titan_venue.Klend.Caps.{WithdrawalCaps, remaining_amount, unwrap_or}

-- The range of `i64`.
unfoldable pub IsI64 : ℤ → Type 0
IsI64 (pos a) = a < 2 ^ 63
IsI64 (negsuc a) = a < 2 ^ 63

-- The total that counts at `now`: none once the interval has passed.
unfoldable pub counted : WithdrawalCaps → ℕ → ℤ
counted caps now =
    if leb caps.config_interval_length_seconds (now - caps.last_interval_start_timestamp)
    then pos 0
    else caps.current_total

-- `r` fills the total up to the capacity, and is nothing where the capacity is negative or the
-- total is above it.
unfoldable pub Remains : ℤ → ℤ → ℕ → Type 0
Remains t (negsuc c) r = r ≡ 0
Remains (pos t) (pos c) r = (t ≤ c → t + r ≡ c) × (c < t → r ≡ 0)
Remains (negsuc t) (pos c) r = r ≡ c + t + 1

left_over-Remains :
    (t c : ℤ)
    → IsI64 t
    → IsI64 c
    → Remains t c (
        if not (int_leb (pos 0) c)
        then 0
        else if int_leb t c
        then unwrap_or 0 (int_to_u64 (int_sub c t))
        else 0)
unfolding Remains IsI64 int_leb int_sub nat_sub int_to_u64
left_over-Remains (pos t) (negsuc c) ht hc = refl
left_over-Remains (negsuc t) (negsuc c) ht hc = refl
left_over-Remains (pos t) (pos c) ht hc = (ground arith, ground arith)
left_over-Remains (negsuc t) (pos c) ht hc = ground arith

if-zero : (n : ℕ) (a b : ℕ) → 0 < n → b ≡ (if n == 0 then a else b)
if-zero n a b h = ground arith

counted-IsI64 :
    (caps : WithdrawalCaps) (now : ℕ) → IsI64 caps.current_total → IsI64 (counted caps now)
unfolding counted IsI64
counted-IsI64 caps now ht = ground arith

-- With an interval set, and both amounts within `i64`, what remains under a cap fills the counted total up to the capacity
-- exactly, and is nothing where the capacity is negative or the total is above it.
pub remaining_amount-Remains :
    (caps : WithdrawalCaps) (now : ℕ)
    → IsI64 caps.config_capacity
    → IsI64 caps.current_total
    → 0 < caps.config_interval_length_seconds
    → Remains (counted caps now) caps.config_capacity (remaining_amount caps now)
unfolding remaining_amount counted
remaining_amount-Remains caps now hc ht set =
    subst (Remains (counted caps now) caps.config_capacity) (if-zero _ _ _ set)
      (left_over-Remains (counted caps now) caps.config_capacity (counted-IsI64 caps now ht) hc)
