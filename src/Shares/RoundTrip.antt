-- ===== src/Shares/RoundTrip.antt =====
-- A deposit that is withdrawn at once.
use overpass_titan_venue.Base.{ℕ, ◌+◌, ◌≤◌, ◌<◌, ◌≡◌, ok, arith, IsU64, String, math_error}
use overpass_titan_venue.Base.Arith.{burn-mint-le}
use overpass_titan_venue.Common.State.{WrapperVault}
use overpass_titan_venue.Common.Checked.Laws.{NotLoss}
use overpass_titan_venue.Shares.{mint_share, redeem_share}
use overpass_titan_venue.Shares.Laws.{mint_share-Safe, redeem_share-Safe}

-- The vault after a mint of `m` shares for `c` units.
abbrev pub after_mint : WrapperVault → ℕ → ℕ → WrapperVault
after_mint wv c m = record wv {
  intermediate_held = wv.intermediate_held + c;
  wrapper_supply = wv.wrapper_supply + m;
}

-- In a vault with holders, the shares that are minted for `c` units redeem at most `c` units when
-- they are burnt at once.
pub redeem_share-mint_share :
    (sync mul div : String) (wv : WrapperVault) (c net m r : ℕ)
    → NotLoss (math_error sync)
    → NotLoss (math_error mul)
    → NotLoss (math_error div)
    → IsU64 net
    → 0 < wv.wrapper_supply
    → mint_share sync mul div wv c net ≡ ok m
    → redeem_share (after_mint wv c m) m ≡ ok r
    → r ≤ c
redeem_share-mint_share sync mul div wv c net m r e1 e2 e3 hn pos minted redeemed =
    let (_, mint) = (mint_share-Safe sync mul div wv c net e1 e2 e3 hn).result m minted in
    let (_, share) = (redeem_share-Safe (after_mint wv c m) m (omega arith)).result r redeemed in
    rw (share, mint.later pos) (burn-mint-le c wv.wrapper_supply wv.intermediate_held)
