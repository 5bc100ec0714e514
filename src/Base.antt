-- ===== src/Base.antt =====
-- The names that every module shares: the libraries', passed on, the tests and lists over the
-- native numbers, and the errors of `src/trading_venue/error.rs` with the result type.
mod Tests
mod Lists
mod Result
mod Words
pub mod Arith
pub mod Safe
pub use Tests.*
pub use Lists.*
pub use Result.{
  Pubkey, ErrorInfo, pubkey_info, string_info, static_str, TradingVenueError, no_account_found,
  not_initialized, invalid_mint, token_info_index_error, exact_out_not_supported,
  boundary_search_failed, no_quotable_value, unsupported_venue, math_error_info,
  deserialization_error_info, math_error, deserialization_error,
  failed_to_fetch_multiple_account_data, Outcome, ok, err, panic, ◌>>◌,
}
unfoldable pub use Result.{◌>>=◌, ok_or, or_panic, fail_if}
pub use Words.*
pub use Prim.Native.Nat.{ℕ, zero, suc, ◌+◌, ◌-◌, ◌*◌, ◌/◌, ◌%◌, ◌^◌, ◌≤◌, ◌<◌, min, max}
pub use Prim.Native.String.{String}
pub use mathlib.Core.Path.{◌≡◌, refl, sym, ap, ◌∙◌}
pub use mathlib.Core.Logic.{◌≢◌, ◌↔◌, ◌⊎◌, inl, inr}
pub use mathlib.Core.Bool.{Bool, true, false, ◌&&◌, ◌||◌, not}
pub use mathlib.Core.Option.{Option, none, some}
pub use mathlib.Core.List.{List, [], ◌∷◌, ◌++◌}
pub use native.Mathlib.Omega.{arith}
