-- ===== src/Lib.antt =====
-- The Tikka raffle contracts: tickets of a raffle are sold for a token, a draw picks winners from a
-- random seed, and winners claim their share of a prize that the creator has put up.
--
-- Parts and files:
--   Shared (contracts/raffle-shared/src): constants.rs is Shared/Constants, the data types and pure
--     functions of lib.rs are Shared/Types, RaffleStatus and its transition table are Shared/Status,
--     and config_builder.rs is Shared/Validate (validate_config) and Shared/Builder (the builder).
--   Randomness (contracts/raffle-instance/src/randomness.rs): the rejection loop, the partial shuffle
--     and the aggregation of quorum seeds are Rejection, Shuffle and Quorum below Randomness; children of
--     Quorum compare the in-place sort with insertions into a list.
--   Instance (contracts/raffle-instance/src): State holds the stored values, Helpers the helpers of
--     helpers.rs, Quote, Prize and Finalize its larger functions; Tickets, Draw, Claim, Admin and Init
--     are tickets.rs, draw.rs, claim.rs, admin.rs, and init of lib.rs with deposit_prize of init.rs;
--     Views holds the queries of views.rs that compute what they return, and the allowance of lib.rs.
--     Children of Tickets, Prize, Quote, Views, Admin and Claim hold what is shown of these.
--     Calls puts the calls together: one request for each, and the states that sequences of them reach.
--     Phase and its children hold the lemmas on the drawing lock, one file for each group of calls.
--   Factory (contracts/raffle-factory/src): State holds the stored values; Roles, Config, Registry,
--     Recurring and Tracking are the calls of lib.rs, by what they are about, and Views is views.rs.
--     Calls puts them together with the calls of the deployed raffles: a raffle that the factory creates
--     is a Contract in its state, made by `init` of Instance. Calls/Frame, Calls/Writes and Calls/Creation
--     say what each call leaves as it was and what a creation adds; Authority, Registered, Settings,
--     Timelock and Rounds follow the authorisation, the register, the settings, the queued operations and
--     the recurring raffles through all calls.
--   Prelude: lists over native numbers, integers with the checked arithmetic of an i128, and Outcome,
--     the result of a call, with the rules for what a call returns. Tests runs the code.
--
-- A call takes the host (Env) and the storage (Contract) and gives an Outcome: a value with the new
-- storage, an Error, or a trap. An error and a trap carry no storage, since the host rolls both back.
-- The arithmetic that the source leaves unchecked traps where it overflows, as the build profile asks.
-- Addresses are numbers. The token contracts, the hash, the signature check, the encoding of values and
-- the answers of the factory are fields of Env. Events, and the extension of times to live, leave no
-- trace in the storage and are left out. A call of the factory takes a FactoryEnv and a Factory in the same
-- way; the address of a deployment and the encodings under its salt are fields of FactoryEnv, and an error
-- of a raffle that the factory calls is a trap of the factory.
--
-- The repository's files hold remains of merges: some functions stand twice, some statements use names
-- that are not declared. Each file here says which version it models. The rejection loop of the winner
-- selection takes fuel; two rounds are enough for every number of tickets that a raffle can have. All
-- other loops recur on a list or on the number of rounds left.
--
-- Not modelled: the queries of the raffle contract that return one stored entry, the attestation, events,
-- the off-chain oracle and the scripts, and functions that no exported call reaches, such as set_admin of
-- admin.rs. Of the factory: `upgrade`, which replaces the code, the queries that return one stored entry,
-- and the partner statistics in trigger_next_round, which read names that are not bound there.
pub mod Prelude
pub mod Shared
pub mod Randomness
pub mod Instance
pub mod Factory
pub mod Tests
