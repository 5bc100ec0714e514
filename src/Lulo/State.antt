-- ===== src/Lulo/State.antt =====
-- `src/your_venue/lulo/state.rs`: the pool and the fields of a position.
use overpass_titan_venue.Base.{
  ℕ, List, Outcome, ok, ◌>>=◌, ◌>>◌, fail_if, ltb, ◌==◌, not, length, deserialization_error, ◌+◌,
  if◌then◌else◌,
}
use overpass_titan_venue.Common.Bytes.{read_u8, read_u16, read_u64, read_u128}

abbrev off_halted_flag : ℕ
off_halted_flag = 8 + 5

abbrev off_boosted_only_halted_flag : ℕ
off_boosted_only_halted_flag = 8 + 6

abbrev off_coverage_float_bps : ℕ
off_coverage_float_bps = 8 + 14

abbrev off_protected_total_supply : ℕ
off_protected_total_supply = 8 + 48

abbrev off_regular_total_supply : ℕ
off_regular_total_supply = 8 + 56

abbrev off_regular_amount : ℕ
off_regular_amount = 8 + 112

abbrev off_protected_amount : ℕ
off_protected_amount = 8 + 120

abbrev off_deposit_limit : ℕ
off_deposit_limit = 8 + 128

abbrev off_total_liquidity : ℕ
off_total_liquidity = 8 + 200

abbrev pub min_bytes_for_quote : ℕ
min_bytes_for_quote = off_total_liquidity + 8

pub record LuloState : Type 0 where
  pub halted_flag : ℕ
  pub boosted_only_halted_flag : ℕ
  pub coverage_float_bps : ℕ
  pub protected_total_supply : ℕ
  pub regular_total_supply : ℕ
  pub regular_amount : ℕ
  pub protected_amount : ℕ
  pub deposit_limit : ℕ
  pub total_liquidity : ℕ
  pub basis_q60 : ℕ
  pub charged_q60 : ℕ
  pub avg_q60 : ℕ
  pub ref_bps : ℕ

unfoldable pub decode : List ℕ → Outcome LuloState
decode bytes = do
  fail_if (ltb (length bytes) min_bytes_for_quote) (deserialization_error "lulo pool: length")
  halted_flag ← read_u8 bytes off_halted_flag "lulo.halted_flag"
  boosted_only_halted_flag ←
      read_u8 bytes off_boosted_only_halted_flag "lulo.boosted_only_halted_flag"
  coverage_float_bps ← read_u16 bytes off_coverage_float_bps "lulo.coverage_float_bps"
  protected_amount ← read_u64 bytes off_protected_amount "lulo.protected_amount"
  protected_total_supply ← read_u64 bytes off_protected_total_supply "lulo.protected_total_supply"
  regular_total_supply ← read_u64 bytes off_regular_total_supply "lulo.regular_total_supply"
  regular_amount ← read_u64 bytes off_regular_amount "lulo.regular_amount"
  deposit_limit ← read_u64 bytes off_deposit_limit "lulo.deposit_limit"
  total_liquidity ← read_u64 bytes off_total_liquidity "lulo.total_liquidity"
  ok (record {
    halted_flag = halted_flag;
    boosted_only_halted_flag = boosted_only_halted_flag;
    coverage_float_bps = coverage_float_bps;
    protected_total_supply = protected_total_supply;
    regular_total_supply = regular_total_supply;
    regular_amount = regular_amount;
    protected_amount = protected_amount;
    deposit_limit = deposit_limit;
    total_liquidity = total_liquidity;
    basis_q60 = 0;
    charged_q60 = 0;
    avg_q60 = 0;
    ref_bps = 0;
  })

abbrev pool_user_protected_avg_price : ℕ
pool_user_protected_avg_price = 96

abbrev pool_user_protected_charged_price : ℕ
pool_user_protected_charged_price = 112

abbrev pool_user_referral_fee_bps : ℕ
pool_user_referral_fee_bps = 160

pub record ChargedAvg : Type 0 where
  pub charged : ℕ
  pub avg : ℕ

unfoldable pub decode_charged_avg_q60 : List ℕ → Outcome ChargedAvg
decode_charged_avg_q60 bytes = do
  charged ← read_u128 bytes pool_user_protected_charged_price "lulo.pool_user.charged_price"
  avg ← read_u128 bytes pool_user_protected_avg_price "lulo.pool_user.avg_price"
  ok (record { charged = charged; avg = avg })

unfoldable pub decode_basis_q60 : List ℕ → Outcome ℕ
decode_basis_q60 bytes = do
  charged ← read_u128 bytes pool_user_protected_charged_price "lulo.pool_user.charged_price"
  if not (charged == 0)
      then ok charged
      else read_u128 bytes pool_user_protected_avg_price "lulo.pool_user.avg_price"

unfoldable pub decode_ref_bps : List ℕ → Outcome ℕ
decode_ref_bps bytes = read_u16 bytes pool_user_referral_fee_bps "lulo.referrer.fee_bps"
