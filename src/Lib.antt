-- ===== src/Lib.antt =====
-- Wynddex: the staking contract (contracts/stake), the constant product pair (contracts/pair) and the
-- price oracle (packages/wyndex/src/oracle.rs), with what they use of packages/wyndex.
--
-- The program is a set of CosmWasm contracts: pairs of tokens, a factory for them, and a staking
-- contract for the liquidity tokens of each pair. A pair swaps its two assets for each other along a
-- constant product, mints liquidity tokens for deposits and burns them for withdrawals, and records its
-- price in an oracle. The staking contract takes liquidity tokens as bonds for an unbonding period,
-- pays rewards of several assets to the bonds by their power, and gives the tokens back after a claim.
-- When the liquidity token of a pair is created, the pair asks for the staking contract of that token.
--
-- - Base: names of the libraries passed on, tests on numbers, lists, and Result, the outcome of a
--   call: ok, err (an error that is returned) or panic (an arithmetic overflow, an unwrap).
-- - Num: Uint128, u128, u64, i128 and Uint256 with their limits written out. Cargo.toml turns overflow checks
--   on in the release profile, so that an operator that overflows panics.
-- - Map: cw_storage_plus::Map as the list of its entries in the order of their keys.
-- - Search: slice::binary_search_by of the Rust library, as its halving loop. The fuel is the length
--   of the list, and each round makes the range smaller, so that it is never used up.
-- - Platform: errors of the standard library, messages and the context of a call.
-- - Asset, Asset.Amounts: AssetInfo and its order as a key, assets with amounts and the checks of what
--   was sent, packages/wyndex/src/asset.rs.
-- - Host: what the platform and libraries outside of the repository do (address validation,
--   Decimal, Timestamp, cw_controllers::Claims and Admin, wynd_curve_utils::Curve): arguments of
--   the model. KeepsClaims is what the theorems assume of Claims.
-- - Decimals: Decimal and Decimal256 of cosmwasm_std, arguments of the model; KeepsDecimals is what
--   they document, rounding down. Decimals.Concrete is an instance, for the examples.
-- - Oracle, Oracle.Query: packages/wyndex/src/oracle.rs. Oracle.Checkpoints, Oracle.Buffers,
--   Oracle.History and Oracle.Freshness prove what it does. The loop over a buffer is a recursion on
--   the number of its rounds.
-- - Pair.State, Pair.Checks, Pair.Referral: packages/wyndex/src/pair.rs, pair/utils.rs,
--   pair/referral.rs, fee_config.rs and contracts/pair/src/state.rs.
-- - Pair.Math, Pair.Swap, Pair.Liquidity, Pair.Contract, Pair.Queries: contracts/pair/src/contract.rs,
--   and pair/instantiate.rs for the replies. Math.Product, Math.Quote, Referral.Commission,
--   Swap.Product, Swap.Cumulative, Liquidity.Shares, Contract.Creation, Queries.Simulation and Invariant prove what
--   they do. Other contracts are queried through Querier, an argument of the model.
-- - Pair.Tests: a concrete pair, and the theorems at concrete calls.
-- - Stake.State, Stake.Store: contracts/stake/src/state.rs and error.rs, the types and all storage
--   items as one record, Store. A handler maps a Store to a Store with messages.
-- - Stake.Bonding: the methods of BondingInfo in state.rs. Bonding.Release and Bonding.Locking
--   prove what they do.
-- - Stake.Power, Stake.Totals: powers of stakes (state.rs, utils.rs), and update_total_stake of
--   contract.rs. Totals.Tracking relates the totals by period to the bonds.
-- - Stake.Rewards: contracts/stake/src/distribution.rs and update_rewards of contract.rs.
--   Rewards.Entitlement, Rewards.Distribute, Rewards.Withdraw and Rewards.Authority prove what
--   they do.
-- - Stake.Staking: execute_bond, execute_mass_bond, execute_unbond, execute_migrate_stake of
--   contract.rs. Staking.Adjust and Staking.Bond hold what these handlers share.
-- - Stake.Transfers: execute_rebond, execute_quick_unbond, execute_claim of contract.rs.
-- - Stake.Admin: instantiate, migrate, the flows of rewards, their funding, the emergency flag.
-- - Stake.Contract: the messages, execute and execute_receive. Contract.Steps is the contract as a
--   state machine, Contract.Halt what the emergency flag stops and lets through.
-- - Stake.Queries: the queries of contract.rs and distribution.rs.
-- - Stake.Invariant: the invariant of the storage, IsConsistent, and that the handlers keep it.
-- - Stake.Tests: a concrete platform and storage, and the theorems at concrete calls.
--
-- Addresses, denominations and times are natural numbers; validation gives an address back or
-- fails. A call that fails leaves the storage as it was, so that only accepted calls are steps.
-- Response attributes, serialization, gas and the versions of cw2 are left out. Where the source
-- walks a HashMap (quick unbonding) the model walks the periods in order. Not modelled: the query of
-- annualized rewards, the text of names, and the other contracts (stable swap pairs, factory,
-- multi-hop, splitter, gauge adapter, migrations, traders and converters).
pub mod Base
pub mod Num
pub mod Map
pub mod Search
pub mod Platform
pub mod Asset
pub mod Host
pub mod Decimals
pub mod Oracle
pub mod Pair
pub mod Stake
