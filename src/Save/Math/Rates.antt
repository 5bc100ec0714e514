-- ===== src/Save/Math/Rates.antt =====
-- The accrual of `src/your_venue/save/math.rs` and what it leaves to the quotes.
use overpass_titan_venue.Base.{
  ℕ, ◌+◌, ◌*◌, ◌^◌, ◌≤◌, ◌<◌, ◌≡◌, refl, arith, IsU64, IsU128, ◌==◌, ◌||◌, leb, saturating_sub,
  saturating_add, u128_max, ok, ◌>>=◌,
}
use overpass_titan_venue.Base.Safe.{
  Safe, Safe-ok, Safe-ok_or, Safe-ok_or->>=, Safe-if, Safe-weaken, Safe->>=,
}
use overpass_titan_venue.Uint.{Uint, IsUint}
use overpass_titan_venue.Common.Checked.Laws.{NotLoss}
use overpass_titan_venue.Save.Wad.{wad, from_u64, from_percent, wad_div, wad_mul}
use overpass_titan_venue.Save.Wad.Laws.{wad_mul-Safe, wad_div-Safe, le-wad_mul}
use overpass_titan_venue.Save.Wad.Power.{wad_pow-IsFactor}
use overpass_titan_venue.Save.State.{SaveState}
use overpass_titan_venue.Save.Math.{
  AccruedSave, utilization_rate, low_segment, middle_segment, high_segment, current_borrow_rate,
  accrue_interest, pre_accrue, total_supply_wad,
}

-- The widths of the fields that accrual and quotes compute with.
pub record IsReserve (s : SaveState) : Type 0 where
  pub available_fits : IsU64 s.available_amount
  pub borrowed_fits : IsU128 s.borrowed_amount_wads
  pub fees_fit : IsU128 s.accumulated_protocol_fees_wads
  pub collateral_fits : IsU64 s.collateral_mint_total_supply

pub from_u64_lem : (n : ℕ) → IsU64 n → from_u64 n ≡ n * wad
unfolding from_u64
from_u64_lem n h = ground arith

pub from_u64-IsU128 : (n : ℕ) → IsU128 (from_u64 n)
unfolding from_u64
from_u64-IsU128 n = omega arith

pub from_percent-IsU128 : (n : ℕ) → IsU128 (from_percent n)
unfolding from_percent
from_percent-IsU128 n = omega arith

-- Interest only adds to the debt and to the fees.
pub record IsAccrued (s : SaveState) (a : AccruedSave) : Type 0 where
  pub borrowed_fits : IsU128 a.borrowed_amount_wads
  pub fees_fit : IsU128 a.accumulated_protocol_fees_wads
  pub borrowed_grows : s.borrowed_amount_wads ≤ a.borrowed_amount_wads
  pub fees_grow : s.accumulated_protocol_fees_wads ≤ a.accumulated_protocol_fees_wads

module _ ⦃u : Uint⦄ (laws : IsUint u) where
  utilization_rate-Safe :
      (s : SaveState) (a : AccruedSave)
      → IsU128 a.borrowed_amount_wads
      → Safe IsU128 NotLoss (utilization_rate s a)
  unfolding utilization_rate
  utilization_rate-Safe s a fits =
      Safe-if (a.borrowed_amount_wads == 0) _ _ (λ _. Safe-ok 0 (omega arith))
        λ _. Safe-ok_or->>= _ _ _ refl λ d _.
          Safe-if (d == 0) _ _ (λ _. Safe-ok 0 (omega arith))
            λ _. Safe-weaken _ (wad_div-Safe laws a.borrowed_amount_wads d fits) λ r _ f. f.0

  -- Each segment of the curve interpolates between two rates.
  interpolate :
      (a b range low : ℕ)
      → IsU128 a
      → IsU128 range
      → Safe IsU128 NotLoss (
          wad_div a b >>= λ normalized.
          wad_mul normalized range >>= λ segment. ok (saturating_add u128_max low segment))
  interpolate a b range low ha hr =
      Safe->>= _ _ (wad_div-Safe laws a b ha)
        λ n _ fn. Safe->>= _ _ (wad_mul-Safe laws n range fn.0 hr) λ g _ fg. Safe-ok _ (omega arith)

  low_segment-Safe : (s : SaveState) (x : ℕ) → IsU128 x → Safe IsU128 NotLoss (low_segment s x)
  unfolding low_segment
  low_segment-Safe s x hx =
      let f = from_percent-IsU128 s.optimal_borrow_rate in
      Safe-if (from_percent s.optimal_utilization_rate == 0) _ _
        (λ _. Safe-ok _ (from_percent-IsU128 s.min_borrow_rate))
        (λ _. interpolate x _ _ _ hx (omega arith))

  middle_segment-Safe :
      (s : SaveState) (x : ℕ) → IsU128 x → Safe IsU128 NotLoss (middle_segment s x)
  unfolding middle_segment
  middle_segment-Safe s x hx =
      let f = from_percent-IsU128 s.max_borrow_rate in
      Safe-if
        (saturating_sub (from_percent s.max_utilization_rate)
            (from_percent s.optimal_utilization_rate)
          == 0)
        _ _ (λ _. Safe-ok _ (from_percent-IsU128 s.optimal_borrow_rate))
        (λ _. interpolate _ _ _ _ (omega arith) (omega arith))

  high_segment-Safe : (s : SaveState) (x : ℕ) → IsU128 x → Safe IsU128 NotLoss (high_segment s x)
  unfolding high_segment
  high_segment-Safe s x hx =
      Safe-if (saturating_sub 100 s.max_utilization_rate == 0) _ _
        (λ _. Safe-ok _ (from_percent-IsU128 s.max_borrow_rate))
        (λ _. interpolate _ _ _ _ (omega arith) (omega arith))

  pub current_borrow_rate-Safe :
      (s : SaveState) → IsReserve s → Safe IsU128 NotLoss (current_borrow_rate s)
  unfolding current_borrow_rate
  current_borrow_rate-Safe s r = Safe->>= _ _ (utilization_rate-Safe s _ r.borrowed_fits) λ x _ hx.
      Safe-if (leb x (from_percent s.optimal_utilization_rate)) _ _ (λ _. low_segment-Safe s x hx)
        λ _.
          Safe-if (leb x (from_percent s.max_utilization_rate)) _ _
            (λ _. middle_segment-Safe s x hx) λ _. high_segment-Safe s x hx

  -- Accrual never panics; where it succeeds, debt and fees have not fallen.
  pub accrue_interest-Safe :
      (s : SaveState) (slot : ℕ)
      → IsReserve s
      → IsU64 slot
      → Safe (IsAccrued s) NotLoss (accrue_interest s slot)
  unfolding accrue_interest
  accrue_interest-Safe s slot r hs =
      Safe-if (saturating_sub slot s.last_update_slot == 0 || s.borrowed_amount_wads == 0) _ _
        (λ _. Safe-ok _ (omega (arith, r.borrowed_fits, r.fees_fit)))
        λ _. Safe->>= _ _ (current_borrow_rate-Safe s r) λ rate _ _.
          Safe->>= _ _ (wad_pow-IsFactor laws _ _ (omega arith) (omega arith)) λ c _ fc.
            Safe->>= _ _ (wad_mul-Safe laws s.borrowed_amount_wads c r.borrowed_fits fc.0) λ b _ fb.
              Safe->>= _ _
                (wad_mul-Safe laws _ _ (omega (arith, fb.0))
                  (from_percent-IsU128 s.protocol_take_rate))
                λ p _ fp. Safe-ok _ (record {
                  borrowed_fits = fb.0;
                  fees_fit = omega arith;
                  borrowed_grows = rw fb.1 (le-wad_mul c s.borrowed_amount_wads fc.1);
                  fees_grow = omega (arith, r.fees_fit);
                })

  -- On a reserve and a slot within the widths of their types, and with laws of `U256` as documented,
  -- `pre_accrue` does not panic. Where it succeeds, it moves the reserve to the slot, keeps its
  -- widths, its liquidity and its collateral, and lowers neither debt nor fees.
  pub pre_accrue-IsReserve :
      (s : SaveState) (slot : ℕ)
      → IsReserve s
      → IsU64 slot
      → Safe
          (λ t.
            IsReserve t
            × (t.last_update_slot ≡ slot)
            × (s.borrowed_amount_wads ≤ t.borrowed_amount_wads)
            × (s.accumulated_protocol_fees_wads ≤ t.accumulated_protocol_fees_wads)
            × (t.available_amount ≡ s.available_amount)
            × (t.collateral_mint_total_supply ≡ s.collateral_mint_total_supply))
          NotLoss
          (pre_accrue s slot)
  unfolding pre_accrue
  pre_accrue-IsReserve s slot r hs = Safe->>= _ _ (accrue_interest-Safe s slot r hs) λ a _ fa.
      Safe-ok _ (
        record {
          available_fits = r.available_fits;
          borrowed_fits = fa.borrowed_fits;
          fees_fit = fa.fees_fit;
          collateral_fits = r.collateral_fits;
        },
        refl,
        fa.borrowed_grows,
        fa.fees_grow,
        refl,
        refl,
      )

pub total_supply_wad-Safe :
    (s : SaveState) (a : AccruedSave)
    → IsReserve s
    → Safe
        (λ t.
          (t < 2 ^ 128)
          × (t + a.accumulated_protocol_fees_wads
              ≡ s.available_amount * wad + a.borrowed_amount_wads))
        NotLoss
        (total_supply_wad s a)
unfolding total_supply_wad
total_supply_wad-Safe s a r =
    Safe-ok_or _ _ refl
      λ t ht. ground (arith, r.available_fits, from_u64_lem s.available_amount r.available_fits)
