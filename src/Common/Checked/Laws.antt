-- ===== src/Common/Checked/Laws.antt =====
-- What the checked operations guarantee.
use text.Mathlib.Text.{◌==◌ as str_eq}
use overpass_titan_venue.Base.{
  ℕ, ◌*◌, ◌/◌, ◌^◌, ◌≤◌, ◌<◌, ◌≡◌, refl, ◌⊎◌, inl, inr, Bool, false, ok, arith, IsU64, IsU128,
  TradingVenueError, math_error_info, static_str, or_panic, ◌>>=◌, fail_if,
}
use overpass_titan_venue.Base.Arith.{mul-lt_256}
use overpass_titan_venue.Base.Safe.{Safe, Safe-ok_or, Safe-ok_or->>=}
use overpass_titan_venue.Uint.{Uint, IsUint}
use overpass_titan_venue.Common.Checked.{
  full_bps, require_no_value_per_share_loss, mul_div_u64, u128_to_u64, mul_bps,
}

-- The error of the guard on the value per share.
abbrev pub is_loss_error : TradingVenueError → Bool
is_loss_error (math_error_info (static_str s)) = str_eq s "value per share decreased"
is_loss_error _ = false

abbrev pub NotLoss : TradingVenueError → Type 0
NotLoss e = is_loss_error e ≡ false

pub mul_div_u64-Safe :
    (a b d : ℕ) → 0 < d → Safe (λ r. (r < 2 ^ 64) × (r ≡ a * b / d)) NotLoss (mul_div_u64 a b d)
unfolding mul_div_u64
mul_div_u64-Safe a b d pos =
    Safe-ok_or->>= _ _ _ refl
      λ p hp. Safe-ok_or->>= _ _ _ refl λ q hq. Safe-ok_or _ _ refl λ r hr. ground arith

pub u128_to_u64-Safe : (v : ℕ) → Safe (λ r. (r < 2 ^ 64) × (r ≡ v)) NotLoss (u128_to_u64 v)
unfolding u128_to_u64
u128_to_u64-Safe v = Safe-ok_or _ _ refl λ r hr. ground arith

pub mul_bps-Safe :
    (a bps : ℕ) → Safe (λ r. (r < 2 ^ 64) × (r ≡ a * bps / 10000)) NotLoss (mul_bps a bps)
unfolding mul_bps
mul_bps-Safe a bps = mul_div_u64-Safe a bps full_bps (omega arith)

module _ ⦃u : Uint⦄ (laws : IsUint u) where
  -- The guard passes where the value per share does not fall, and no product overflows.
  pub require_no_value_per_share_loss_pass :
      (v s v' s' : ℕ)
      → IsU128 v
      → IsU64 s
      → IsU128 v'
      → IsU64 s'
      → v * s' ≤ v' * s
      → require_no_value_per_share_loss v s v' s' ≡ ok tt
  unfolding require_no_value_per_share_loss or_panic ◌>>=◌ fail_if
  require_no_value_per_share_loss_pass v s v' s' hv hs hv' hs' keeps = ground (
    arith,
    laws.mul_lem v' s (mul-lt_256 hv' (omega arith)),
    laws.mul_lem v s' (mul-lt_256 hv (omega arith)),
  )

  -- Where it passes and both supplies are positive, the value per share did not fall.
  pub require_no_value_per_share_loss_sound :
      (v s v' s' : ℕ)
      → IsU128 v
      → IsU64 s
      → IsU128 v'
      → IsU64 s'
      → require_no_value_per_share_loss v s v' s' ≡ ok tt
      → 0 < s
      → 0 < s'
      → v * s' ≤ v' * s
  unfolding require_no_value_per_share_loss or_panic ◌>>=◌ fail_if
  require_no_value_per_share_loss_sound v s v' s' hv hs hv' hs' passed p p' = ground (
    arith,
    laws.mul_lem v' s (mul-lt_256 hv' (omega arith)),
    laws.mul_lem v s' (mul-lt_256 hv (omega arith)),
  )

  pub require_no_value_per_share_loss_empty :
      (v s v' s' : ℕ) → (s ≡ 0) ⊎ (s' ≡ 0) → require_no_value_per_share_loss v s v' s' ≡ ok tt
  unfolding require_no_value_per_share_loss
  require_no_value_per_share_loss_empty v s v' s' (inl e) = ground arith
  require_no_value_per_share_loss_empty v s v' s' (inr e) = ground arith
