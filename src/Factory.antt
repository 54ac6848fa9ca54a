-- ===== src/Factory.antt =====
-- contracts/raffle-factory/src: the contract that deploys raffles and keeps the protocol's settings.
pub mod State
pub mod Roles
pub mod Config
pub mod Registry
pub mod Recurring
pub mod Tracking
pub mod Views
pub mod Calls
