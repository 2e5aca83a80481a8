-- ===== src/Pair.antt =====
-- The constant product pair: contracts/pair and what packages/wyndex/src/pair.rs shares among pairs.
mod Tests
pub mod State
pub mod Checks
pub mod Math
pub mod Referral
pub mod Swap
pub mod Liquidity
pub mod Contract
pub mod Queries
pub mod Invariant
