-- ===== src/Common/Bytes/RoundTrip.antt =====
-- Reading a field gives back what was written there.
use overpass_titan_venue.Base.{
  ℕ, zero, suc, ◌+◌, ◌/◌, ◌^◌, ◌<◌, ◌≡◌, refl, ap, List, [], ◌∷◌, ◌++◌, String, ok, arith, length,
  take, drop, length-append, ◌>>=◌, ok_or, fail_if,
}
use native.Mathlib.Nat.{pow-suc}
use overpass_titan_venue.Common.Bytes.{from_le_bytes, to_le_bytes, read_slice, read_uint}

pub length-to_le_bytes : (w n : ℕ) → length (to_le_bytes w n) ≡ w
unfolding to_le_bytes
length-to_le_bytes zero n = refl
length-to_le_bytes (suc w) n = ap suc (length-to_le_bytes w (n / 256))

pub from_le_bytes-to_le_bytes : (w n : ℕ) → n < 256 ^ w → from_le_bytes (to_le_bytes w n) ≡ n
unfolding from_le_bytes to_le_bytes
from_le_bytes-to_le_bytes zero n h = omega arith
from_le_bytes-to_le_bytes (suc w) n h =
    omega (arith, from_le_bytes-to_le_bytes w (n / 256) (omega (arith, pow-suc 256 w)))

drop-append {ℓ} : {A : Type ℓ} (xs ys : List A) → drop (length xs) (xs ++ ys) ≡ ys
drop-append [] ys = refl
drop-append (x ∷ xs) ys = drop-append xs ys

take-append {ℓ} : {A : Type ℓ} (xs ys : List A) → take (length xs) (xs ++ ys) ≡ xs
take-append [] ys = refl
take-append (x ∷ xs) ys = ap (◌∷◌ x) (take-append xs ys)

read_slice-append :
    (before mid rest : List ℕ) (label : String)
    → length before + length mid < 2 ^ 64
    → read_slice (length mid) (before ++ (mid ++ rest)) (length before) label ≡ ok mid
unfolding read_slice ◌>>=◌ ok_or fail_if
read_slice-append before mid rest label small =
    rw (drop-append before (mid ++ rest), take-append mid rest)
      (ground (arith, length-append before (mid ++ rest), length-append mid rest))

-- A number of `w` bytes that is written in little-endian order between any other bytes is what a
-- read of width `w` at its offset returns.
pub read_uint-to_le_bytes :
    (w n : ℕ) (before rest : List ℕ) (label : String)
    → n < 256 ^ w
    → length before + w < 2 ^ 64
    → read_uint w (before ++ (to_le_bytes w n ++ rest)) (length before) label ≡ ok n
unfolding read_uint ◌>>=◌
read_uint-to_le_bytes w n before rest label fits small =
    let e : length (to_le_bytes w n) ≡ w = length-to_le_bytes w n in
    let slice : read_slice w (before ++ (to_le_bytes w n ++ rest)) (length before) label
        ≡ ok (to_le_bytes w n) =
      rw e at (read_slice-append before (to_le_bytes w n) rest label (omega arith)) in
    rw slice (ap ok (from_le_bytes-to_le_bytes w n fits))
