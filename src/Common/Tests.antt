-- ===== src/Common/Tests.antt =====
-- Reads and directions at concrete accounts.
use overpass_titan_venue.Base.{◌≡◌, [], ◌∷◌, ◌++◌, ok, arith}
use overpass_titan_venue.Common.Bytes.{read_uint, to_le_bytes}
use overpass_titan_venue.Common.Bytes.RoundTrip.{read_uint-to_le_bytes}

read_uint-to_le_bytes_example :
    read_uint 8 ((7 ∷ 9 ∷ []) ++ (to_le_bytes 8 1_000_000 ++ (3 ∷ []))) 2 "field" ≡ ok 1_000_000
read_uint-to_le_bytes_example =
    read_uint-to_le_bytes 8 1_000_000 (7 ∷ 9 ∷ []) (3 ∷ []) "field" (omega arith) (omega arith)
