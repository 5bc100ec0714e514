-- ===== src/Common/Bytes.antt =====
-- `src/your_venue/common/bytes.rs`: little-endian fields of an account, which is a list of bytes.
pub mod RoundTrip
use overpass_titan_venue.Base.{
  ℕ, zero, suc, ◌+◌, ◌*◌, ◌/◌, ◌%◌, List, [], ◌∷◌, Option, none, some, Pubkey, String, Outcome, ok,
  err, ◌>>=◌, ◌>>◌, ok_or, or_panic, fail_if, ltb, length, take, drop, get_elem?, checked_add,
  u64_max, deserialization_error,
}

-- `from_le_bytes` and `to_le_bytes` of Rust's unsigned integers.
unfoldable pub from_le_bytes : List ℕ → ℕ
from_le_bytes [] = 0
from_le_bytes (b ∷ bs) = b + 256 * from_le_bytes bs

unfoldable pub to_le_bytes : ℕ → ℕ → List ℕ
to_le_bytes zero n = []
to_le_bytes (suc w) n = n % 256 ∷ to_le_bytes w (n / 256)

-- The bytes `data[offset..offset + w]`, with `offset + w` checked; a `usize` has 64 bits.
unfoldable pub read_slice : ℕ → List ℕ → ℕ → String → Outcome (List ℕ)
read_slice w bytes offset label = do
  end ← ok_or (checked_add u64_max offset w) (deserialization_error label)
  fail_if (ltb (length bytes) end) (deserialization_error label)
  ok (take w (drop offset bytes))

unfoldable pub read_pubkey : List ℕ → ℕ → String → Outcome Pubkey
unfolding read_slice
read_pubkey bytes offset label = read_slice 32 bytes offset label

unfoldable pub read_u8 : List ℕ → ℕ → String → Outcome ℕ
read_u8 bytes offset label = ok_or (get_elem? bytes offset) (deserialization_error label)

unfoldable pub read_uint : ℕ → List ℕ → ℕ → String → Outcome ℕ
unfolding read_slice from_le_bytes
read_uint w bytes offset label = do
  slice ← read_slice w bytes offset label
  ok (from_le_bytes slice)

unfoldable pub read_u16 : List ℕ → ℕ → String → Outcome ℕ
unfolding read_uint
read_u16 = read_uint 2

unfoldable pub read_u32 : List ℕ → ℕ → String → Outcome ℕ
unfolding read_uint
read_u32 = read_uint 4

unfoldable pub read_u64 : List ℕ → ℕ → String → Outcome ℕ
unfolding read_uint
read_u64 = read_uint 8

unfoldable pub read_u128 : List ℕ → ℕ → String → Outcome ℕ
unfolding read_uint
read_u128 = read_uint 16

-- `data[i]`, which panics past the end.
unfoldable pub byte_at : List ℕ → ℕ → Outcome ℕ
byte_at bytes i = or_panic (get_elem? bytes i)
