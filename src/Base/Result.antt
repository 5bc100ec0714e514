-- ===== src/Base/Result.antt =====
-- `src/trading_venue/error.rs`: the errors of a venue; and the outcome of a call, which is a
-- value, an error or a panic. An unchecked operation that leaves its type's range counts as a
-- panic, as in a debug build.
use Prim.Native.Nat.{ℕ}
use Prim.Native.String.{String}
use mathlib.Core.List.{List}
use mathlib.Core.Option.{Option, none, some}
use mathlib.Core.Bool.{Bool, true, false}

-- An address is its bytes, 32 of them.
abbrev pub Pubkey : Type 0
Pubkey = List ℕ

pub data ErrorInfo : Type 0 where
  pubkey_info : Pubkey → ErrorInfo
  string_info : String → ErrorInfo
  static_str : String → ErrorInfo

pub data TradingVenueError : Type 0 where
  no_account_found from_account_error failed_to_fetch_account_data : ErrorInfo → TradingVenueError
  failed_to_fetch_multiple_account_data : TradingVenueError
  deserialization_failed : ErrorInfo → TradingVenueError
  cache_unlock_failed : TradingVenueError
  not_initialized missing_state invalid_mint checked_math_error : ErrorInfo → TradingVenueError
  amm_method_error : ErrorInfo → TradingVenueError
  exact_out_not_supported : TradingVenueError
  data_conversion_error boundary_search_failed no_quotable_value : ErrorInfo → TradingVenueError
  something_went_wrong : TradingVenueError
  unsupported_venue : ErrorInfo → TradingVenueError
  token_info_index_error : ℕ → TradingVenueError
  math_error_info deserialization_error_info : ErrorInfo → TradingVenueError
  inactive_pool_error : Pubkey → TradingVenueError
  account_cache_error : TradingVenueError

-- `TradingVenueError::MathError("…".into())`, and so for the other kind.
abbrev pub math_error : String → TradingVenueError
math_error s = math_error_info (static_str s)

abbrev pub deserialization_error : String → TradingVenueError
deserialization_error s = deserialization_error_info (static_str s)

pub data Outcome {ℓ} (A : Type ℓ) : Type ℓ where
  ok : A → Outcome A
  err : TradingVenueError → Outcome A
  panic : Outcome A

-- `?` after a call, and the rest of the function.
infixl 5 ◌>>=◌ ◌>>◌
unfoldable pub ◌>>=◌ {ℓ κ} : {A : Type ℓ} {B : Type κ} → Outcome A → (A → Outcome B) → Outcome B
ok a >>= f = f a
err e >>= f = err e
panic >>= f = panic

abbrev pub ◌>>◌ {ℓ} : {B : Type ℓ} → Outcome (Unit {0}) → Outcome B → Outcome B
m >> k = m >>= λ _. k

-- `o.ok_or(e)`
unfoldable pub ok_or {ℓ} : {A : Type ℓ} → Option A → TradingVenueError → Outcome A
ok_or (some a) e = ok a
ok_or none e = err e

-- An operation that panics where the option is empty.
unfoldable pub or_panic {ℓ} : {A : Type ℓ} → Option A → Outcome A
or_panic (some a) = ok a
or_panic none = panic

-- `if b { return Err(e) }`
unfoldable pub fail_if : Bool → TradingVenueError → Outcome (Unit {0})
fail_if true e = err e
fail_if false e = ok tt
