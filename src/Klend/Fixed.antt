-- ===== src/Klend/Fixed.antt =====
-- `fixed::types::U68F60`, the `Fraction` of `src/your_venue/klend/fraction.rs`: 128 bits, 60 of
-- them behind the point. The crate is not part of the repository: its operations are a
-- parameter, on the bits, with what the crate's documentation says of them as laws.
pub mod Native
use overpass_titan_venue.Base.{ℕ, ◌+◌, ◌-◌, ◌*◌, ◌/◌, ◌%◌, ◌^◌, ◌≤◌, ◌<◌, ◌≡◌, Option, some}

-- `none` is a panic. `mul_int` and `div_int` take an integer on the right; `to_num` goes to the
-- unsigned integer type with the given largest value. `ZERO` is 0, `from_bits` and `to_bits`
-- keep the bits, and comparisons are those of the bits.
pub record Fixed : Type 0 where
  pub one : ℕ
  pub from_num : ℕ → Option ℕ
  pub add : ℕ → ℕ → Option ℕ
  pub sub : ℕ → ℕ → Option ℕ
  pub mul : ℕ → ℕ → Option ℕ
  pub div : ℕ → ℕ → Option ℕ
  pub mul_int : ℕ → ℕ → Option ℕ
  pub div_int : ℕ → ℕ → Option ℕ
  pub round : ℕ → Option ℕ
  pub floor : ℕ → Option ℕ
  pub ceil : ℕ → Option ℕ
  pub to_num : ℕ → ℕ → Option ℕ
  pub frac : ℕ → ℕ

-- The documented behaviour where the result fits the type.
pub record IsFixed (f : Fixed) : Type 0 where
  pub one_lem : f.one ≡ 2 ^ 60
  pub from_num_lem : (a : ℕ) → a < 2 ^ 68 → f.from_num a ≡ some (a * 2 ^ 60)
  pub add_lem : (a b : ℕ) → a + b < 2 ^ 128 → f.add a b ≡ some (a + b)
  pub sub_lem : (a b : ℕ) → b ≤ a → f.sub a b ≡ some (a - b)
  pub mul_lem : (a b : ℕ) → a * b / 2 ^ 60 < 2 ^ 128 → f.mul a b ≡ some (a * b / 2 ^ 60)
  pub div_lem : (a b : ℕ) → 0 < b → a * 2 ^ 60 / b < 2 ^ 128 → f.div a b ≡ some (a * 2 ^ 60 / b)
  pub mul_int_lem : (a n : ℕ) → a * n < 2 ^ 128 → f.mul_int a n ≡ some (a * n)
  pub div_int_lem : (a n : ℕ) → 0 < n → f.div_int a n ≡ some (a / n)
  pub floor_lem : (a : ℕ) → f.floor a ≡ some (a / 2 ^ 60 * 2 ^ 60)
  pub ceil_lem :
      (a : ℕ)
      → (a + (2 ^ 60 - 1)) / 2 ^ 60 < 2 ^ 68
      → f.ceil a ≡ some ((a + (2 ^ 60 - 1)) / 2 ^ 60 * 2 ^ 60)
  pub to_num_lem : (top a : ℕ) → a / 2 ^ 60 ≤ top → f.to_num top a ≡ some (a / 2 ^ 60)
  pub frac_lem : (a : ℕ) → f.frac a ≡ a % 2 ^ 60
