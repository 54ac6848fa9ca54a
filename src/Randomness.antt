-- ===== src/Randomness.antt =====
-- contracts/raffle-instance/src/randomness.rs: how a seed picks the winning ticket indices.
pub mod Rejection
pub mod Shuffle
pub mod Quorum
