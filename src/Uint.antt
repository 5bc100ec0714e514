-- ===== src/Uint.antt =====
-- The 256-bit integer of `src/your_venue/common/u256.rs`, which the `uint` crate generates. The
-- crate is not part of the repository: its operations are a parameter, on the numbers that its
-- values stand for, with what the crate's documentation says of them as laws.
pub mod Native
use overpass_titan_venue.Base.{ℕ, ◌+◌, ◌-◌, ◌*◌, ◌/◌, ◌%◌, ◌^◌, ◌≤◌, ◌<◌, ◌≡◌, Option, none, some}

-- `mul`, `add`, `sub` and `div` are the operators; `none` is their panic. Comparisons, `from`
-- and `is_zero` are those of the numbers. `to_u128` is `try_into`.
pub record Uint : Type 0 where
  pub mul : ℕ → ℕ → Option ℕ
  pub add : ℕ → ℕ → Option ℕ
  pub sub : ℕ → ℕ → Option ℕ
  pub div : ℕ → ℕ → Option ℕ
  pub shl : ℕ → ℕ → ℕ
  pub shr : ℕ → ℕ → ℕ
  pub mul? : ℕ → ℕ → Option ℕ
  pub add? : ℕ → ℕ → Option ℕ
  pub to_u128 : ℕ → Option ℕ
  pub low_u128 : ℕ → ℕ

-- The documented behaviour: operators are exact where the result fits 256 bits, `checked_*` fail
-- exactly where it does not, shifts drop the bits that leave the word.
pub record IsUint (u : Uint) : Type 0 where
  pub mul_lem : (a b : ℕ) → a * b < 2 ^ 256 → u.mul a b ≡ some (a * b)
  pub add_lem : (a b : ℕ) → a + b < 2 ^ 256 → u.add a b ≡ some (a + b)
  pub sub_lem : (a b : ℕ) → b ≤ a → u.sub a b ≡ some (a - b)
  pub div_lem : (a b : ℕ) → 0 < b → u.div a b ≡ some (a / b)
  pub shl_lem : (a k : ℕ) → u.shl a k ≡ a * 2 ^ k % 2 ^ 256
  pub shr_lem : (a k : ℕ) → u.shr a k ≡ a / 2 ^ k
  pub mul?_lem : (a b : ℕ) → a * b < 2 ^ 256 → u.mul? a b ≡ some (a * b)
  pub add?_lem : (a b : ℕ) → a + b < 2 ^ 256 → u.add? a b ≡ some (a + b)
  pub to_u128_lem : (a : ℕ) → a < 2 ^ 128 → u.to_u128 a ≡ some a
  pub to_u128_large : (a : ℕ) → 2 ^ 128 ≤ a → u.to_u128 a ≡ none
  pub low_u128_lem : (a : ℕ) → u.low_u128 a ≡ a % 2 ^ 128
