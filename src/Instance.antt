-- ===== src/Instance.antt =====
-- contracts/raffle-instance/src: one raffle, from its initialisation to its last claim.
pub mod State
pub mod Helpers
pub mod Quote
pub mod Prize
pub mod Finalize
pub mod Tickets
pub mod Draw
pub mod Claim
pub mod Admin
pub mod Init
pub mod Phase
pub mod Views
pub mod Calls
