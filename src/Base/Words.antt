-- ===== src/Base/Words.antt =====
-- Machine widths, checked and saturating arithmetic of Rust's unsigned integers, and the bounds
-- of their types. A value is a number; its range is stated where it is needed.
use Prim.Native.Nat.{ℕ, ◌+◌, ◌-◌, ◌*◌, ◌/◌, ◌^◌, ◌<◌, min}
use mathlib.Core.Option.{Option, none, some}
use overpass_titan_venue.Base.Tests.{leb, ◌==◌, if◌then◌else◌}

abbrev pub u64_max : ℕ
u64_max = 2 ^ 64 - 1

abbrev pub u128_max : ℕ
u128_max = 2 ^ 128 - 1

abbrev pub IsU8 : ℕ → Type 0
IsU8 n = n < 2 ^ 8

abbrev pub IsU16 : ℕ → Type 0
IsU16 n = n < 2 ^ 16

abbrev pub IsU64 : ℕ → Type 0
IsU64 n = n < 2 ^ 64

abbrev pub IsU128 : ℕ → Type 0
IsU128 n = n < 2 ^ 128

-- The `checked_*` and `saturating_*` methods at the width whose largest value is `top`.
module _ (top : ℕ) where
  abbrev pub checked_add : ℕ → ℕ → Option ℕ
  checked_add a b = if leb (a + b) top then some (a + b) else none

  abbrev pub checked_mul : ℕ → ℕ → Option ℕ
  checked_mul a b = if leb (a * b) top then some (a * b) else none

  abbrev pub saturating_add : ℕ → ℕ → ℕ
  saturating_add a b = min (a + b) top

  abbrev pub saturating_mul : ℕ → ℕ → ℕ
  saturating_mul a b = min (a * b) top

  -- `try_from` into the type of that width.
  abbrev pub try_from : ℕ → Option ℕ
  try_from a = if leb a top then some a else none

abbrev pub checked_sub : ℕ → ℕ → Option ℕ
checked_sub a b = if leb b a then some (a - b) else none

abbrev pub checked_div : ℕ → ℕ → Option ℕ
checked_div a b = if b == 0 then none else some (a / b)

-- Subtraction of native numbers stops at 0, as `saturating_sub` does.
abbrev pub saturating_sub : ℕ → ℕ → ℕ
saturating_sub a b = a - b
