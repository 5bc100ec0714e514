-- ===== src/Klend/Math/Quotes.antt =====
-- The quotes of `src/your_venue/klend/math.rs`: what a quoted amount guarantees, on a reserve
-- whose interest has been accrued.
use native.Mathlib.Nat.{zero-mul, zero-div}
use overpass_titan_venue.Base.{
  ℕ, ◌+◌, ◌-◌, ◌*◌, ◌/◌, ◌^◌, ◌≤◌, ◌<◌, ◌≡◌, refl, ap, ◌>>=◌, or_panic, ◌⊎◌, inl, inr, arith, IsU64,
  IsU128, ◌==◌, ◌||◌, ok, ltb→le, Bool, if◌then◌else◌, false, true, Bool-cases,
}
use overpass_titan_venue.Base.Safe.{
  Safe, Safe-ok, Safe-ok->>=, Safe-or_panic->>=, Safe-if, Safe-fail_if, Safe-weaken, Safe->>=,
}
use overpass_titan_venue.Uint.{Uint, IsUint}
use overpass_titan_venue.Common.State.{WrapperVault, GlobalConfig}
use overpass_titan_venue.Common.Checked.Laws.{NotLoss}
use overpass_titan_venue.Shares.Laws.{
  IsSized, IsMint, IsNet, KeepsValue, net_of_fees-Safe, mint_share-Safe, check_mint-Safe,
  redeem_share-Safe, check_burn-Safe,
}
use overpass_titan_venue.Int.{ℤ, max_zero}
use overpass_titan_venue.Klend.Fixed.{Fixed, IsFixed}
use overpass_titan_venue.Klend.Caps.{remaining_amount}
use overpass_titan_venue.Klend.State.{KlendState}
use overpass_titan_venue.Klend.Accrual.{
  AccruedKlend, accrue_interest, total_supply_fraction, total_supply_core,
}
use overpass_titan_venue.Klend.Math.{
  ExchangeRate, exchange_rate_pair, collateral_to_liquidity, quote_deposit, quote_withdraw,
}
use overpass_titan_venue.Klend.Math.Exchange.{
  liquidity_to_collateral-Safe, collateral_to_liquidity-Safe, collateral_to_liquidity_ceil-Safe,
}

-- The assets of a reserve cover the fees that it owes, and fit the fractions; `total` is the rest.
pub record IsSolvent (s : KlendState) (acc : AccruedKlend) (total : ℕ) : Type 0 where
  pub available_fits : IsU64 s.total_available_amount
  pub assets_fit : IsU128 (s.total_available_amount * 2 ^ 60 + acc.borrowed_amount_sf)
  pub is_total :
      total
        + (acc.accumulated_protocol_fees_sf + acc.accumulated_referrer_fees_sf
            + acc.pending_referrer_fees_sf)
      ≡ s.total_available_amount * 2 ^ 60 + acc.borrowed_amount_sf

-- The rate is the reserve's, or one to one where it is empty.
pub record IsPair (units total : ℕ) (p : ExchangeRate) : Type 0 where
  pub units_positive : 0 < p.collateral
  pub units_fit : p.collateral < 2 ^ 128
  pub supply_positive : 0 < p.supply
  pub supply_fits : p.supply < 2 ^ 128
  pub is_rate :
      (units * total ≡ 0) × (p.supply ≡ p.collateral * 2 ^ 60)
      ⊎ (p.collateral ≡ units) × (p.supply ≡ total)

module _ ⦃u : Uint⦄ ⦃f : Fixed⦄ where
  -- What a quoted withdrawal of `x` guarantees on a reserve that holds `total` after the accrual:
  -- the units `r` that the burn redeems are its proportion of the vault's, `x` is their value
  -- rounded down, the reserve holds it beside what is queued, the cap allows it, and the units
  -- per share of the other holders do not fall.
  pub record IsKlendWithdrawal (s : KlendState) (now : ℤ) (wv : WrapperVault) (total amount x : ℕ)
      : Type 0 where
    pub redeemed : ℕ
    pub queued : ℕ
    pub pair : ExchangeRate
    pub is_pair : IsPair s.collateral_mint_total_supply total pair
    pub is_share : redeemed ≡ amount * wv.intermediate_held / wv.wrapper_supply
    pub is_value : x ≡ redeemed * pair.supply / pair.collateral / 2 ^ 60
    pub is_queued : queued ≡ s.queued_collateral_amount * pair.supply / pair.collateral / 2 ^ 60
    pub available : x + queued ≤ s.total_available_amount
    pub within_cap : x ≤ remaining_amount s.deposit_withdrawal_cap (max_zero now)
    pub covered : redeemed ≤ wv.intermediate_held
    pub positive : 0 < x
    pub fits : x < 2 ^ 64
    pub keeps_value :
        KeepsValue wv.intermediate_held wv.wrapper_supply
          (wv.intermediate_held - redeemed)
          (wv.wrapper_supply - amount)

  -- What a quoted mint `m` for `amount` guarantees: the collateral `c` is worth no more than the
  -- liquidity `d` that goes into the reserve, which is at most the net amount and keeps the
  -- reserve within its limit.
  pub record IsKlendDeposit (s : KlendState) (wv : WrapperVault) (gc : GlobalConfig)
      (total amount m : ℕ) : Type 0 where
    pub net : ℕ
    pub collateral : ℕ
    pub deposited : ℕ
    pub pair : ExchangeRate
    pub is_pair : IsPair s.collateral_mint_total_supply total pair
    pub is_net : IsNet wv gc amount net
    pub fair : collateral * pair.supply ≤ deposited * 2 ^ 60 * pair.collateral
    pub covered : deposited ≤ net
    pub within_limit : deposited * 2 ^ 60 + total ≤ s.deposit_limit * 2 ^ 60
    pub is_mint : IsMint wv collateral net m
    pub positive : 0 < m
    pub fits : m < 2 ^ 64
    pub keeps_value :
        0 < wv.wrapper_supply
        → KeepsValue wv.intermediate_held wv.wrapper_supply
            (wv.intermediate_held + collateral)
            (wv.wrapper_supply + m)

module _ ⦃u : Uint⦄ ⦃f : Fixed⦄ (laws : IsUint u) (fixed : IsFixed f) where
  if-IsPair :
      {units total : ℕ} (b : Bool) (p q : ExchangeRate)
      → (b ≡ true → IsPair units total p)
      → (b ≡ false → IsPair units total q)
      → IsPair units total (if b then p else q)
  if-IsPair true p q hp hq = hp refl
  if-IsPair false p q hp hq = hq refl

  exchange_rate_pair-IsPair :
      (units total : ℕ)
      → IsU64 units
      → IsU128 total
      → IsPair units total (exchange_rate_pair units total)
  unfolding exchange_rate_pair
  exchange_rate_pair-IsPair units total hu ht =
      if-IsPair (units == 0 || total == 0) _ _
        (λ h. record {
          units_positive = omega arith;
          units_fit = omega arith;
          supply_positive = omega (arith, fixed.one_lem);
          supply_fits = omega (arith, fixed.one_lem);
          is_rate = inl (empty h, omega (arith, fixed.one_lem));
        })
        λ h. record {
          units_positive = ground arith;
          units_fit = omega arith;
          supply_positive = ground arith;
          supply_fits = ht;
          is_rate = inr (refl, refl);
        }
    where
      empty : units == 0 || total == 0 ≡ true → units * total ≡ 0
      empty h = elim (Bool-cases (units == 0)) [
        | inl z ↦ let e : units ≡ 0 = ground arith in rw e (omega arith)
        | inr z ↦ let e : total ≡ 0 = ground arith in rw e (omega arith)
      ]

  total_supply_fraction-solvent :
      (s : KlendState) (acc : AccruedKlend) (total : ℕ)
      → IsSolvent s acc total
      → total_supply_fraction s acc ≡ ok total
  unfolding total_supply_fraction total_supply_core ◌>>=◌ or_panic
  total_supply_fraction-solvent s acc total solvent =
      let available = s.total_available_amount in
      let assets = available * 2 ^ 60 + acc.borrowed_amount_sf in
      let protocol = acc.accumulated_protocol_fees_sf in
      let referrer = acc.accumulated_referrer_fees_sf in
      let pending = acc.pending_referrer_fees_sf in
      let is_total = solvent.is_total in
      rw
        (
          fixed.from_num_lem available (omega (arith, solvent.available_fits)),
          fixed.add_lem (available * 2 ^ 60) acc.borrowed_amount_sf solvent.assets_fit,
          fixed.sub_lem assets protocol (omega (arith, is_total)),
          fixed.sub_lem (assets - protocol) referrer (omega (arith, is_total)),
          fixed.sub_lem (assets - protocol - referrer) pending (omega (arith, is_total)),
        )
        (ap ok (omega (arith, is_total)))

  queued-Safe :
      (q : ℕ) (pair : ExchangeRate)
      → IsU64 q
      → pair.supply < 2 ^ 128
      → Safe
          (λ r. r ≡ q * pair.supply / pair.collateral / 2 ^ 60)
          NotLoss
          (if q == 0 then ok 0 else collateral_to_liquidity q pair.collateral pair.supply)
  queued-Safe q pair hq fits =
      Safe-if (q == 0) _ _ (λ z. Safe-ok 0 (none_queued (ground arith)))
        λ _.
          Safe-weaken _
            (collateral_to_liquidity-Safe laws fixed q pair.collateral pair.supply hq fits)
            λ _ _ fx. fx.2
    where
      none_queued : q ≡ 0 → 0 ≡ q * pair.supply / pair.collateral / 2 ^ 60
      none_queued e = rw (e, zero-mul pair.supply, zero-div pair.collateral) (omega arith)

  -- On a reserve and a vault within the widths of their types, and with the documented laws of
  -- `U256` and of the fractions, `quote_withdraw` of Klend, where the accrual of the reserve
  -- succeeds and leaves assets that fit the fractions and cover the fees it owes, never panics, never fails by the
  -- guard on the value per share, and every amount that it quotes is covered, fair and within
  -- the cap.
  pub quote_withdraw-IsKlendWithdrawal :
      (s : KlendState) (slot : ℕ) (now : ℤ) (wv : WrapperVault) (acc : AccruedKlend)
      (total amount : ℕ)
      → accrue_interest s slot now ≡ ok acc
      → IsSolvent s acc total
      → IsU64 s.collateral_mint_total_supply
      → IsU64 s.queued_collateral_amount
      → IsSized wv
      → Safe (IsKlendWithdrawal s now wv total amount) NotLoss (quote_withdraw s slot now wv amount)
  unfolding quote_withdraw
  quote_withdraw-IsKlendWithdrawal s slot now wv acc total amount ha solvent hu hq sized =
      Safe-fail_if _ _ _ refl λ nz. Safe-fail_if _ _ _ refl λ _. Safe-fail_if _ _ _ refl λ _.
        Safe-fail_if _ _ _ refl λ le. Safe-fail_if _ _ _ refl λ _.
          let le' : amount ≤ wv.wrapper_supply = ground arith in
          let pos : 0 < wv.wrapper_supply = ground arith in
          Safe->>= _ _ (redeem_share-Safe wv amount pos) λ red _ fred. Safe-fail_if _ _ _ refl λ _.
            Safe-ok->>= _ _ ha (
              Safe-ok->>= _ _ (total_supply_fraction-solvent s acc total solvent) (
                Safe->>= _ _
                  (collateral_to_liquidity-Safe laws fixed red _ _ fred.0 is_pair.supply_fits)
                  λ x _ fx. Safe-fail_if _ _ _ refl λ nx.
                    Safe->>= _ _
                      (queued-Safe s.queued_collateral_amount pair hq is_pair.supply_fits)
                      λ q _ fq. Safe-fail_if _ _ _ refl λ av. Safe-fail_if _ _ _ refl λ cap.
                        Safe->>= _ _ (check_burn-Safe laws wv amount red sized le' fred.1)
                          λ _ _ keeps. Safe-ok x (record {
                            redeemed = red;
                            queued = q;
                            pair = pair;
                            is_pair = is_pair;
                            is_share = fred.1;
                            is_value = fx.2;
                            is_queued = fq;
                            available = ground arith;
                            within_cap = ltb→le _ _ cap;
                            covered = keeps.0;
                            positive = ground arith;
                            fits = fx.0;
                            keeps_value = keeps.1;
                          })))
    where
      pair : ExchangeRate
      pair = exchange_rate_pair s.collateral_mint_total_supply total

      is_pair : IsPair s.collateral_mint_total_supply total pair
      is_pair =
          exchange_rate_pair-IsPair s.collateral_mint_total_supply total hu
            (omega (arith, solvent.assets_fit, solvent.is_total))

  -- On a reserve, a vault and an amount within the widths of their types, and with the documented
  -- laws of `U256` and of the fractions, `quote_deposit` of Klend, where the accrual of the reserve
  -- and the computation of its supply succeed and leave a sixteenth of the range of the
  -- supply free, never panics, never fails by the guard on the value per share, and every amount that
  -- it quotes is a fair mint within the limit of the reserve.
  pub quote_deposit-IsKlendDeposit :
      (s : KlendState) (slot : ℕ) (now : ℤ) (wv : WrapperVault) (gc : GlobalConfig)
      (acc : AccruedKlend) (total amount : ℕ)
      → accrue_interest s slot now ≡ ok acc
      → total_supply_fraction s acc ≡ ok total
      → IsU64 s.collateral_mint_total_supply
      → IsU64 s.deposit_limit
      → total + 2 ^ 124 ≤ 2 ^ 128
      → IsSized wv
      → IsU64 amount
      → Safe (IsKlendDeposit s wv gc total amount) NotLoss (quote_deposit s slot now wv gc amount)
  unfolding quote_deposit
  quote_deposit-IsKlendDeposit s slot now wv gc acc total amount ha ht hu hl room sized hamt =
      Safe-fail_if _ _ _ refl λ _. Safe-fail_if _ _ _ refl λ _. Safe-fail_if _ _ _ refl λ _.
        Safe-fail_if _ _ _ refl λ _. Safe-fail_if _ _ _ refl λ _. Safe-ok->>= _ _ ha (
          Safe-ok->>= _ _ ht (
            Safe->>= _ _ (net_of_fees-Safe wv gc amount) λ net _ fn.
              let hn : net < 2 ^ 64 = omega arith in
              Safe-fail_if _ _ _ refl λ _.
                Safe->>= _ _ (liquidity_to_collateral-Safe laws fixed net _ _ hn is_pair.units_fit)
                  λ c _ fc. Safe-fail_if _ _ _ refl λ _.
                    Safe->>= _ _
                      (collateral_to_liquidity_ceil-Safe laws fixed c _ _ net fc.0 hn
                        is_pair.units_fit is_pair.supply_fits is_pair.units_positive fc.2)
                      λ d _ fd.
                        let hd : d < 2 ^ 64 = omega (arith, fd.0, hn) in
                        Safe-fail_if _ _ _ refl λ _.
                          Safe-or_panic->>= _ _ (fixed.from_num_lem d (omega arith)) (
                            Safe-or_panic->>= _ _ (fixed.add_lem (d * 2 ^ 60) total (omega arith)) (
                              Safe-or_panic->>= _ _
                                (fixed.from_num_lem s.deposit_limit (omega arith))
                                (Safe-fail_if _ _ _ refl λ lim.
                                  Safe->>= _ _ (mint_share-Safe _ _ _ wv c net refl refl refl hn)
                                    λ m _ fm. Safe-fail_if _ _ _ refl λ nz.
                                      Safe->>= _ _ (check_mint-Safe laws wv c net m sized fm.1)
                                        λ _ _ keeps. Safe-ok m (record {
                                          net = net;
                                          collateral = c;
                                          deposited = d;
                                          pair = pair;
                                          is_pair = is_pair;
                                          is_net = fn;
                                          fair = fd.1;
                                          covered = fd.0;
                                          within_limit = ltb→le _ _ lim;
                                          is_mint = fm.1;
                                          positive = ground arith;
                                          fits = fm.0;
                                          keeps_value = keeps;
                                        }))))))
    where
      pair : ExchangeRate
      pair = exchange_rate_pair s.collateral_mint_total_supply total

      is_pair : IsPair s.collateral_mint_total_supply total pair
      is_pair = exchange_rate_pair-IsPair s.collateral_mint_total_supply total hu (omega arith)
