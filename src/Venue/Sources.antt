-- ===== src/Venue/Sources.antt =====
-- The sources behind a wrapper vault, `Source` of `src/your_venue/mod.rs`, and the methods that
-- quote of the `mod.rs` of each source.
use overpass_titan_venue.Base.{ℕ, Outcome}
use overpass_titan_venue.Uint.{Uint}
use overpass_titan_venue.Int.{ℤ}
use overpass_titan_venue.Common.State.{WrapperVault, GlobalConfig}
use overpass_titan_venue.Klend.Fixed.{Fixed}
use overpass_titan_venue.Marginfi.Signed.{Signed}
use overpass_titan_venue.Klend.State.{KlendState}
use overpass_titan_venue.Kvault.State.{KvaultState}
use overpass_titan_venue.Save.State.{SaveState}
use overpass_titan_venue.Marginfi.State.{MarginfiState}
use overpass_titan_venue.Lulo.State.{LuloState}
use overpass_titan_venue.Klend.Math.{
  quote_deposit as klend_deposit, quote_withdraw as klend_withdraw,
}
use overpass_titan_venue.Kvault.Math.{
  quote_deposit as kvault_deposit, quote_withdraw as kvault_withdraw,
}
use overpass_titan_venue.Save.Math.{quote_deposit as save_deposit, quote_withdraw as save_withdraw}
use overpass_titan_venue.Marginfi.Math.{
  quote_deposit as marginfi_deposit, quote_withdraw as marginfi_withdraw,
}
use overpass_titan_venue.Lulo.Math.{quote_deposit as lulo_deposit, quote_withdraw as lulo_withdraw}

pub record Klend : Type 0 where
  pub state : KlendState
  pub current_slot : ℕ
  pub unix_timestamp : ℤ

pub record Kvault : Type 0 where
  pub state : KvaultState
  pub current_slot : ℕ
  pub unix_timestamp : ℤ

pub record Save : Type 0 where
  pub state : SaveState
  pub current_slot : ℕ

pub record Marginfi : Type 0 where
  pub state : MarginfiState
  pub unix_timestamp : ℤ

pub record Lulo : Type 0 where
  pub state : LuloState

pub data Source : Type 0 where
  klend_source : Klend → Source
  kvault_source : Kvault → Source
  save_source : Save → Source
  marginfi_source : Marginfi → Source
  lulo_source : Lulo → Source

unfoldable pub source_deposit :
    ⦃u : Uint⦄ → ⦃f : Fixed⦄ → ⦃g : Signed⦄ → Source → WrapperVault → GlobalConfig → ℕ → Outcome ℕ
source_deposit (klend_source s) wv gc amount =
    klend_deposit s.state s.current_slot s.unix_timestamp wv gc amount
source_deposit (kvault_source s) wv gc amount =
    kvault_deposit s.state s.current_slot s.unix_timestamp wv gc amount
source_deposit (save_source s) wv gc amount = save_deposit s.state s.current_slot wv gc amount
source_deposit (marginfi_source s) wv gc amount =
    marginfi_deposit s.state s.unix_timestamp wv gc amount
source_deposit (lulo_source s) wv gc amount = lulo_deposit s.state wv gc amount

unfoldable pub source_withdraw :
    ⦃u : Uint⦄ → ⦃f : Fixed⦄ → ⦃g : Signed⦄ → Source → WrapperVault → ℕ → Outcome ℕ
source_withdraw (klend_source s) wv amount =
    klend_withdraw s.state s.current_slot s.unix_timestamp wv amount
source_withdraw (kvault_source s) wv amount =
    kvault_withdraw s.state s.current_slot s.unix_timestamp wv amount
source_withdraw (save_source s) wv amount = save_withdraw s.state s.current_slot wv amount
source_withdraw (marginfi_source s) wv amount = marginfi_withdraw s.state s.unix_timestamp wv amount
source_withdraw (lulo_source s) wv amount = lulo_withdraw s.state wv amount
