-- ===== src/Shared.antt =====
-- contracts/raffle-shared/src: the types, the constants and the configuration checks that the two
-- contracts share.
pub mod Constants
pub mod Status
pub mod Types
pub mod Validate
pub mod Builder
