-- ===== src/Common/Direction.antt =====
-- `src/your_venue/common/direction.rs`.
use overpass_titan_venue.Base.{
  ◌&&◌, Pubkey, Outcome, ok, err, bytes_eq, if◌then◌else◌, invalid_mint, static_str,
}
use overpass_titan_venue.Common.State.{WrapperVault}

pub data Direction : Type 0 where
  deposit withdraw : Direction

unfoldable pub detect : WrapperVault → Pubkey → Pubkey → Outcome Direction
detect wv input output =
    if bytes_eq input wv.underlying_mint && bytes_eq output wv.wrapper_mint
    then ok deposit
    else if bytes_eq input wv.wrapper_mint && bytes_eq output wv.underlying_mint
    then ok withdraw
    else err (invalid_mint (static_str "unsupported mint pair"))
