-- ===== src/Lib.antt =====
-- Verification of the Overpass venue for Titan: the search for the range of quotable inputs, and
-- the quotes of the yield sources behind a wrapper vault.
--
-- A wrapper vault holds units of a yield source (`src/your_venue/state.rs`). A deposit pays fees,
-- buys units and mints wrapper shares; a withdrawal burns shares and redeems units. Each source has
-- its own reserve, rate and quotes, over shared bytes, checked arithmetic and guards. The venue
-- interface (`src/trading_venue`) turns a quote into a range of inputs by search.
--
-- Parts and their files:
--   Base, Base/*: numbers, words of fixed width, lists of bytes, outcomes and the rules for them.
--   TradingVenue, TradingVenue/Methods: requests, results, tokens and default methods,
--     `src/trading_venue/mod.rs`, `error.rs` and `token_info.rs`.
--   Venue, Venue/*: `src/your_venue/mod.rs`, over the sources; Venue/Prices: its prices;
--     Venue/Creations: the parser of pool creations, with `src/trading_venue/venue_creation.rs`.
--   SwapRoute, SwapRoute/*: `src/swap_route/mod.rs`, the legs of a route and their encoding.
--   Bounds, Bounds/*: `src/trading_venue/bounds.rs`.
--   Uint, Uint/Native: the 256-bit integer of `src/your_venue/common/u256.rs`.
--   Common/Bytes, Common/Checked, Common/Direction: the files of `src/your_venue/common`,
--     with Common/Programs and Common/Addresses.
--   Common/State: `src/your_venue/state.rs`.
--   Shares, Shares/*: the steps that the quotes of Save and Klend share, and the mint in proportion
--     to the shares of kvault and Marginfi.
--   Save/Wad, Save/State, Save/Math: the files of `src/your_venue/save`;
--     Save/Instructions: its `account_metas.rs` and the instructions of its `mod.rs`.
--   Klend/Fixed, Klend/Fraction: `src/your_venue/klend/fraction.rs`.
--   Int: the signed integers of Rust.
--   Klend/Caps: `src/your_venue/klend/withdrawal_caps.rs`.
--   Klend/State: `src/your_venue/klend/state.rs`.
--   Klend/Accrual, Klend/Math: the two halves of `src/your_venue/klend/math.rs`.
--   Kvault/State, Kvault/State/Farm: `src/your_venue/kvault/state.rs`.
--   Kvault/Holdings, Kvault/Math: the second half and the two quotes of
--     `src/your_venue/kvault/math.rs`.
--   Marginfi/Signed: the fixed-point type of `src/your_venue/marginfi`.
--   Marginfi/State, Marginfi/State/Account: `src/your_venue/marginfi/state.rs`.
--   Marginfi/Rates, Marginfi/Math: rates and accrual, and the two quotes of
--     `src/your_venue/marginfi/math.rs`.
--   Lulo/State, Lulo/Math: the files of `src/your_venue/lulo`.
--
-- Conventions. A value of an unsigned type is a natural number, and its width is a hypothesis where
-- one is needed. A fallible function returns an `Outcome`: a value, an error with its label, or
-- `panic`. An operator that overflows counts as a panic, as in a build with overflow checks; a
-- theorem that excludes panics also excludes the silent wrap of a build without them. A function
-- that changes a state returns the new one. `Safe P E o` says that `o` is not a panic, that its
-- value satisfies `P`, and that its error satisfies `E`; `NotLoss` is every error but that of the
-- guard on the value per share.
--
-- Parameters. The operations of the `uint` crate and of two types of the `fixed` crate are
-- records, `Uint`, `Fixed` and `Signed`, with the documented behaviour as the laws `IsUint`,
-- `IsFixed` and `IsSigned`; each has a model in its module `Native`. `f64` is a type with the operations `Double`, whose order on numbers is
-- `IsOrder`, and the derived encoding of Borsh is `BorshSerialize`, whose layout is `IsBorsh`.
-- The search for a program address is `ProgramAddresses`.
-- The quote function of the boundary search is an argument that does not panic.
--
-- Fuel. Each loop of the boundary search has 64 steps: 64 doublings of 1 leave 64 bits, and 64
-- halvings close every bracket. The loop of the power in Save has 64 steps for an exponent of 64 bits.
-- Using up the fuel is a panic, so that a theorem without panics says that it is enough. The loop
-- over the curve of Klend has as many steps as there are points.
--
-- Halving a range into edges of prices takes 64 steps at most, and using them up is a panic too.
--
-- Not modelled: the lists of accounts and the instructions of the sources but Save, the fetch of accounts
-- in an update, the execution of routes by the program, the network
-- access and its cache, and the example venue.
pub mod Base
pub mod TradingVenue
pub mod Bounds
pub mod Uint
pub mod Int
pub mod Common
pub mod Shares
pub mod Save
pub mod Klend
pub mod Lulo
pub mod Marginfi
pub mod SwapRoute
pub mod Venue
pub mod Kvault
