-- ===== src/Klend/Caps.antt =====
-- `src/your_venue/klend/withdrawal_caps.rs`: the caps on withdrawals.
pub mod Laws
use overpass_titan_venue.Base.{
  ℕ, ◌-◌, List, Option, none, some, Outcome, ok, ◌>>=◌, ◌>>◌, fail_if, ltb, leb, ◌==◌, take, drop,
  length, not, if◌then◌else◌, saturating_sub, u64_max, deserialization_error,
}
use overpass_titan_venue.Common.Bytes.{from_le_bytes}
use overpass_titan_venue.Int.{ℤ, pos, negsuc, to_i64, int_leb, int_sub, int_to_u64}

abbrev pub withdrawal_caps_len : ℕ
withdrawal_caps_len = 32

pub record WithdrawalCaps : Type 0 where
  pub config_capacity : ℤ
  pub current_total : ℤ
  pub last_interval_start_timestamp : ℕ
  pub config_interval_length_seconds : ℕ

-- The slices are in range after the check of the length.
unfoldable pub decode_caps : List ℕ → Outcome WithdrawalCaps
decode_caps slice = do
  fail_if (ltb (length slice) withdrawal_caps_len)
      (deserialization_error "klend withdrawal_caps: length")
  ok (record {
    config_capacity = to_i64 (from_le_bytes (take 8 slice));
    current_total = to_i64 (from_le_bytes (take 8 (drop 8 slice)));
    last_interval_start_timestamp = from_le_bytes (take 8 (drop 16 slice));
    config_interval_length_seconds = from_le_bytes (take 8 (drop 24 slice));
  })

abbrev pub unwrap_or : ℕ → Option ℕ → ℕ
unwrap_or d none = d
unwrap_or d (some n) = n

unfoldable pub remaining_amount : WithdrawalCaps → ℕ → ℕ
unfolding int_leb int_sub int_to_u64
remaining_amount caps timestamp =
    let time_spent = saturating_sub timestamp caps.last_interval_start_timestamp in
    let interval_elapsed = leb caps.config_interval_length_seconds time_spent in
    let current_total = if interval_elapsed then pos 0 else caps.current_total in
    if caps.config_interval_length_seconds == 0
    then u64_max
    else if not (int_leb (pos 0) caps.config_capacity)
    then 0
    else if int_leb current_total caps.config_capacity
    then unwrap_or 0 (int_to_u64 (int_sub caps.config_capacity current_total))
    else 0
