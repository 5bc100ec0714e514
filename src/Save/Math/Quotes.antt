-- ===== src/Save/Math/Quotes.antt =====
-- The quotes of `src/your_venue/save/math.rs`: what a quoted amount guarantees.
use native.Mathlib.Nat.{div-mul-le_self, mul-le-mul_right}
use overpass_titan_venue.Base.{
  ℕ, ◌+◌, ◌-◌, ◌*◌, ◌/◌, ◌%◌, ◌^◌, ◌≤◌, ◌<◌, ◌≡◌, refl, ◌⊎◌, inl, inr, arith, IsU64, IsU128, ◌==◌,
  ◌||◌, ok, some, checked_add, u128_max, ltb, ltb→le, false,
}
use overpass_titan_venue.Base.Safe.{
  Safe, Safe-ok, Safe-ok_or->>=, Safe-if, Safe-fail_if, Safe-weaken, Safe->>=,
}
use overpass_titan_venue.Uint.{Uint, IsUint}
use overpass_titan_venue.Common.State.{WrapperVault, GlobalConfig}
use overpass_titan_venue.Common.Checked.Laws.{NotLoss}
use overpass_titan_venue.Shares.Laws.{
  IsSized, IsMint, IsNet, KeepsValue, net_of_fees-Safe, mint_share-Safe, check_mint-Safe,
  redeem_share-Safe, check_burn-Safe,
}
use overpass_titan_venue.Save.Wad.{wad, from_u64, to_floor_u64}
use overpass_titan_venue.Save.Wad.Laws.{wad_mul-Safe, wad_div-Safe}
use overpass_titan_venue.Save.State.{SaveState}
use overpass_titan_venue.Save.Math.{
  AccruedSave, accrue_interest, exchange_rate, liquidity_to_collateral, collateral_to_liquidity,
  quote_deposit, quote_withdraw,
}
use overpass_titan_venue.Save.Math.Rates.{
  IsReserve, from_u64_lem, from_u64-IsU128, accrue_interest-Safe, total_supply_wad-Safe,
}

-- The rate is one at the start, else the collateral in units of 10^-18 per unit of supply.
abbrev pub IsRate : ℕ → ℕ → ℕ → Type 0
IsRate supply total rate =
    ((total ≡ 0) ⊎ (supply ≡ 0)) × (rate ≡ wad) ⊎ (0 < total) × (rate ≡ supply * wad * wad / total)

module _ ⦃u : Uint⦄ where
  -- What a quoted mint `m` for `amount` guarantees, at the rate of the accrued reserve: the collateral `c` that it brings for the net
  -- amount is worth no more than that at the rate, the reserve stays within its limit unless its
  -- supply has 2 ^ 64 units or more, the shares are its proportion of the vault's units, and the holders' units per share do not fall.
  pub record IsSaveDeposit (s : SaveState) (slot : ℕ) (wv : WrapperVault) (gc : GlobalConfig)
      (amount m : ℕ) : Type 0 where
    pub net : ℕ
    pub collateral : ℕ
    pub rate : ℕ
    pub total : ℕ
    pub accrued : AccruedSave
    pub accrues : accrue_interest s slot ≡ ok accrued
    pub is_total :
        total + accrued.accumulated_protocol_fees_wads
        ≡ s.available_amount * wad + accrued.borrowed_amount_wads
    pub is_net : IsNet wv gc amount net
    pub is_rate : IsRate s.collateral_mint_total_supply total rate
    pub fair : collateral * wad ≤ net * rate
    pub cut_within_limit : (net * wad + total) / wad % 2 ^ 64 ≤ s.deposit_limit
    pub within_limit :
        net * wad + total < 2 ^ 64 * wad → net * wad + total < (s.deposit_limit + 1) * wad
    pub is_mint : IsMint wv collateral net m
    pub positive : 0 < m
    pub fits : m < 2 ^ 64
    pub keeps_value :
        0 < wv.wrapper_supply
        → KeepsValue wv.intermediate_held wv.wrapper_supply
            (wv.intermediate_held + collateral)
            (wv.wrapper_supply + m)

  -- What a quoted withdrawal of `x` guarantees: the units `r` that the burn redeems are its
  -- proportion of the vault's, `x` is worth no more than them, the reserve holds it, and the
  -- units per share of the other holders do not fall.
  pub record IsSaveWithdrawal (s : SaveState) (slot : ℕ) (wv : WrapperVault) (amount x : ℕ)
      : Type 0 where
    pub redeemed : ℕ
    pub rate : ℕ
    pub total : ℕ
    pub accrued : AccruedSave
    pub accrues : accrue_interest s slot ≡ ok accrued
    pub is_total :
        total + accrued.accumulated_protocol_fees_wads
        ≡ s.available_amount * wad + accrued.borrowed_amount_wads
    pub is_rate : IsRate s.collateral_mint_total_supply total rate
    pub is_share : redeemed ≡ amount * wv.intermediate_held / wv.wrapper_supply
    pub fair : x * rate ≤ redeemed * wad
    pub available : x ≤ s.available_amount
    pub covered : redeemed ≤ wv.intermediate_held
    pub positive : 0 < x
    pub fits : x < 2 ^ 64
    pub keeps_value :
        KeepsValue wv.intermediate_held wv.wrapper_supply
          (wv.intermediate_held - redeemed)
          (wv.wrapper_supply - amount)

module _ ⦃u : Uint⦄ (laws : IsUint u) where
  pub exchange_rate-Safe :
      (supply total : ℕ)
      → IsU64 supply
      → IsU128 total
      → Safe (λ r. IsU128 r × IsRate supply total r) NotLoss (exchange_rate supply total)
  unfolding exchange_rate
  exchange_rate-Safe supply total hs ht =
      Safe-if (total == 0 || supply == 0) _ _
        (λ z. Safe-ok _ (omega arith, inl (ground arith, refl)))
        λ nz.
          Safe-weaken _ (wad_div-Safe laws _ total (from_u64-IsU128 supply))
            λ r _ f. (f.0, inr (f.1, rw (← from_u64_lem supply hs) f.2))

  -- `c` units of collateral for `x` of liquidity at a rate, rounded down.
  pub liquidity_to_collateral-Safe :
      (x rate : ℕ)
      → IsU64 x
      → IsU128 rate
      → Safe (λ c. (c < 2 ^ 64) × (c * wad ≤ x * rate)) NotLoss (liquidity_to_collateral x rate)
  unfolding liquidity_to_collateral to_floor_u64
  liquidity_to_collateral-Safe x rate hx hr =
      Safe->>= _ _ (wad_mul-Safe laws _ rate (from_u64-IsU128 x) hr)
        λ p _ f. Safe-ok _ (omega arith, floor_le p f.1)
    where
      floor_le : (p : ℕ) → p ≡ from_u64 x * rate / wad → p / wad % 2 ^ 64 * wad ≤ x * rate
      floor_le p e =
          let e' : p * wad ≤ x * wad * rate =
            rw (e, from_u64_lem x hx) (div-mul-le_self (x * wad * rate) wad) in
          omega arith

  pub collateral_to_liquidity-Safe :
      (c rate : ℕ)
      → IsU64 c
      → Safe (λ x. (x < 2 ^ 64) × (x * rate ≤ c * wad)) NotLoss (collateral_to_liquidity c rate)
  unfolding collateral_to_liquidity to_floor_u64
  collateral_to_liquidity-Safe c rate hc = Safe-fail_if _ _ _ refl λ nz.
      Safe->>= _ _ (wad_div-Safe laws _ rate (from_u64-IsU128 c))
        λ q _ f. Safe-ok _ (omega arith, floor_le q f.2)
    where
      floor_le : (q : ℕ) → q ≡ from_u64 c * wad / rate → q / wad % 2 ^ 64 * rate ≤ c * wad
      floor_le q e =
          let e' : q * rate ≤ c * wad * wad =
            rw (e, from_u64_lem c hc) (div-mul-le_self (c * wad * wad) rate) in
          let below : q / wad % 2 ^ 64 * wad ≤ q = omega arith in
          omega (arith, mul-le-mul_right rate below)

  -- On a reserve, a vault, a slot and an amount within the widths of their types, and with laws of
  -- `U256` as documented, `quote_deposit` of Save never panics, never fails by the guard on the
  -- value per share, and every amount that it quotes is a fair mint: the supply of the reserve with
  -- the net amount, in whole units cut to 64 bits, is within the deposit limit, and where the
  -- supply is below 2 ^ 64 units it is within the limit itself.
  pub quote_deposit-IsSaveDeposit :
      (s : SaveState) (slot : ℕ) (wv : WrapperVault) (gc : GlobalConfig) (amount : ℕ)
      → IsReserve s
      → IsU64 slot
      → IsSized wv
      → IsU64 amount
      → Safe (IsSaveDeposit s slot wv gc amount) NotLoss (quote_deposit s slot wv gc amount)
  unfolding quote_deposit to_floor_u64
  quote_deposit-IsSaveDeposit s slot wv gc amount r hs sized ha = Safe-fail_if _ _ _ refl λ _.
      Safe->>= _ _ (accrue_interest-Safe laws s slot r hs) λ acc eacc _.
        Safe->>= _ _ (total_supply_wad-Safe s acc r) λ total _ ft.
          Safe->>= _ _ (exchange_rate-Safe _ total r.collateral_fits ft.0) λ rate _ fr.
            Safe->>= _ _ (net_of_fees-Safe wv gc amount) λ net _ fn.
              let hn : IsU64 net = omega arith in
              Safe-fail_if _ _ _ refl λ _. Safe-ok_or->>= _ _ _ refl λ post hp.
                Safe-fail_if _ _ _ refl λ lim.
                  Safe->>= _ _ (liquidity_to_collateral-Safe net rate hn fr.0) λ c _ fc.
                    Safe-fail_if _ _ _ refl λ _.
                      Safe->>= _ _ (mint_share-Safe _ _ _ wv c net refl refl refl hn) λ m _ fm.
                        Safe-fail_if _ _ _ refl λ nz.
                          Safe->>= _ _ (check_mint-Safe laws wv c net m sized fm.1) λ _ _ keeps.
                            Safe-ok m (record {
                              net = net;
                              collateral = c;
                              rate = rate;
                              total = total;
                              accrued = acc;
                              accrues = eacc;
                              is_total = ft.1;
                              is_net = fn;
                              is_rate = fr.1;
                              fair = fc.1;
                              cut_within_limit = limit net total post hn hp lim;
                              within_limit =
                                  λ small. uncut net total small (limit net total post hn hp lim);
                              is_mint = fm.1;
                              positive = ground arith;
                              fits = fm.0;
                              keeps_value = keeps;
                            })
    where
      limit :
          (net total post : ℕ)
          → IsU64 net
          → checked_add u128_max (from_u64 net) total ≡ some post
          → ltb s.deposit_limit (to_floor_u64 post) ≡ false
          → (net * wad + total) / wad % 2 ^ 64 ≤ s.deposit_limit
      limit net total post hn hp lim =
          let e : post ≡ net * wad + total = ground (arith, from_u64_lem net hn) in
          rw (← e) (ltb→le _ _ lim)

      uncut :
          (net total : ℕ)
          → net * wad + total < 2 ^ 64 * wad
          → (net * wad + total) / wad % 2 ^ 64 ≤ s.deposit_limit
          → net * wad + total < (s.deposit_limit + 1) * wad
      uncut net total small lim = omega arith

  -- On a reserve, a vault and a slot within the widths of their types, and with laws of `U256` as
  -- documented, `quote_withdraw` of Save never panics, never fails by the guard on the value per
  -- share, and every amount that it quotes is covered and fair.
  pub quote_withdraw-IsSaveWithdrawal :
      (s : SaveState) (slot : ℕ) (wv : WrapperVault) (amount : ℕ)
      → IsReserve s
      → IsU64 slot
      → IsSized wv
      → Safe (IsSaveWithdrawal s slot wv amount) NotLoss (quote_withdraw s slot wv amount)
  unfolding quote_withdraw
  quote_withdraw-IsSaveWithdrawal s slot wv amount r hs sized = Safe-fail_if _ _ _ refl λ nz.
      Safe-fail_if _ _ _ refl λ le. Safe-fail_if _ _ _ refl λ _.
        let le' : amount ≤ wv.wrapper_supply = ground arith in
        let pos : 0 < wv.wrapper_supply = ground arith in
        Safe->>= _ _ (accrue_interest-Safe laws s slot r hs) λ acc eacc _.
          Safe->>= _ _ (total_supply_wad-Safe s acc r) λ total _ ft.
            Safe->>= _ _ (exchange_rate-Safe _ total r.collateral_fits ft.0) λ rate _ fr.
              Safe->>= _ _ (redeem_share-Safe wv amount pos) λ red _ fred.
                Safe-fail_if _ _ _ refl λ _.
                  Safe->>= _ _ (collateral_to_liquidity-Safe red rate fred.0) λ x _ fx.
                    Safe-fail_if _ _ _ refl λ nx. Safe-fail_if _ _ _ refl λ avail.
                      Safe->>= _ _ (check_burn-Safe laws wv amount red sized le' fred.1)
                        λ _ _ keeps. Safe-ok x (record {
                          redeemed = red;
                          rate = rate;
                          total = total;
                          accrued = acc;
                          accrues = eacc;
                          is_total = ft.1;
                          is_rate = fr.1;
                          is_share = fred.1;
                          fair = fx.1;
                          available = ground arith;
                          covered = keeps.0;
                          positive = ground arith;
                          fits = fx.0;
                          keeps_value = keeps.1;
                        })
