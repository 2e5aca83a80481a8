-- ===== src/Stake.antt =====
-- The staking contract, contracts/stake.
pub mod State
pub mod Bonding
pub mod Power
pub mod Totals
pub mod Store
pub mod Rewards
pub mod Staking
pub mod Transfers
pub mod Admin
pub mod Contract
pub mod Queries
pub mod Invariant
pub mod Tests
