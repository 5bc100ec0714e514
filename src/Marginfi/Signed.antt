-- ===== src/Marginfi/Signed.antt =====
-- `fixed::types::I80F48` of `src/your_venue/marginfi`: signed, 128 bits, 48 of them behind the
-- point. The crate is not part of the repository: its operations are a parameter, on the bits,
-- with what the crate's documentation says of them as laws.
pub mod Native
pub mod Laws
use overpass_titan_venue.Base.{ℕ, ◌+◌, ◌-◌, ◌*◌, ◌/◌, ◌^◌, ◌≤◌, ◌<◌, ◌≡◌, Option, none, some}
use overpass_titan_venue.Int.{ℤ, pos, nat_sub}

-- `none` is the failure of a checked operation, and the panic of any other. `from_num` takes an
-- unsigned integer. `ZERO` is `pos 0`, `from_bits` and `to_bits` keep the bits, and comparisons
-- are those of the bits.
pub record Signed : Type 0 where
  pub one : ℤ
  pub from_num : ℕ → Option ℤ
  pub add : ℤ → ℤ → Option ℤ
  pub sub : ℤ → ℤ → Option ℤ
  pub mul : ℤ → ℤ → Option ℤ
  pub div : ℤ → ℤ → Option ℤ
  pub checked_add : ℤ → ℤ → Option ℤ
  pub checked_sub : ℤ → ℤ → Option ℤ
  pub checked_mul : ℤ → ℤ → Option ℤ
  pub checked_div : ℤ → ℤ → Option ℤ
  pub floor : ℤ → Option ℤ
  pub checked_to_u64 : ℤ → Option ℕ

-- The documented behaviour on values that are not negative: exact, or rounded down, where the
-- result fits; a checked operation fails where it does not.
pub record IsSigned (f : Signed) : Type 0 where
  pub one_lem : f.one ≡ pos (2 ^ 48)
  pub from_num_lem : (a : ℕ) → a < 2 ^ 79 → f.from_num a ≡ some (pos (a * 2 ^ 48))
  pub checked_add_lem :
      (a b : ℕ) → a + b < 2 ^ 127 → f.checked_add (pos a) (pos b) ≡ some (pos (a + b))
  pub checked_add_large : (a b : ℕ) → 2 ^ 127 ≤ a + b → f.checked_add (pos a) (pos b) ≡ none
  pub checked_sub_lem :
      (a b : ℕ) → a < 2 ^ 127 → b < 2 ^ 127 → f.checked_sub (pos a) (pos b) ≡ some (nat_sub a b)
  pub checked_mul_lem :
      (a b : ℕ)
      → a * b / 2 ^ 48 < 2 ^ 127
      → f.checked_mul (pos a) (pos b) ≡ some (pos (a * b / 2 ^ 48))
  pub checked_mul_large :
      (a b : ℕ) → 2 ^ 127 ≤ a * b / 2 ^ 48 → f.checked_mul (pos a) (pos b) ≡ none
  pub checked_div_lem :
      (a b : ℕ)
      → 0 < b
      → a * 2 ^ 48 / b < 2 ^ 127
      → f.checked_div (pos a) (pos b) ≡ some (pos (a * 2 ^ 48 / b))
  pub checked_div_large :
      (a b : ℕ) → 0 < b → 2 ^ 127 ≤ a * 2 ^ 48 / b → f.checked_div (pos a) (pos b) ≡ none
  pub checked_div_zero : (a : ℕ) → f.checked_div (pos a) (pos 0) ≡ none
  pub floor_lem : (a : ℕ) → f.floor (pos a) ≡ some (pos (a / 2 ^ 48 * 2 ^ 48))
  pub checked_to_u64_lem :
      (a : ℕ) → a / 2 ^ 48 < 2 ^ 64 → f.checked_to_u64 (pos a) ≡ some (a / 2 ^ 48)
  pub checked_to_u64_large : (a : ℕ) → 2 ^ 64 ≤ a / 2 ^ 48 → f.checked_to_u64 (pos a) ≡ none
