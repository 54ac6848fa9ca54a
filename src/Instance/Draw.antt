-- ===== src/Instance/Draw.antt =====
-- contracts/raffle-instance/src/draw.rs: how a draw is started, fed with randomness and abandoned.
use tikka_contracts.Prelude.{
  ℕ, zero, suc, ◌+◌, Bool, true, false, not, ◌&&◌, ◌||◌, Option, none, some, List, [], ◌∷◌, ◌++◌,
  ltb, leb, ◌==◌, if◌then◌else◌, is_some, length,
}
use tikka_contracts.Prelude.Outcome.{
  ok, err, trap, ◌>>=◌, ◌>>◌, reject_if, trap_unless, ok_or, or_trap,
}
use tikka_contracts.Shared.Types.{
  Address, Bytes, RandomnessSource, quorum, is_external, is_commit_reveal, be_u64,
}
use tikka_contracts.Shared.Constants.{oracle_timeout_ledgers}
use tikka_contracts.Shared.Status.{RaffleStatus, active, drawing, cancelled, failed, status_eq}
use tikka_contracts.Randomness.Quorum.{aggregate_quorum_seeds}
use tikka_contracts.Instance.State.{
  Raffle, Contract, Env, Call, CommitRevealEntry, update, drawing_already_in_progress,
  invalid_status, invalid_state_transition, drawing_already_complete, invalid_parameters,
  oracle_not_set, no_randomness_request, randomness_too_early, not_authorized, fallback_too_early,
  drawing_not_started, oracle_not_registered, duplicate_oracle_submission,
}
use tikka_contracts.Instance.Helpers.{
  checked_u32, require_auth, read_raffle, transition_status, revert_status, request_randomness,
  transition_to_drawing, build_internal_seed_u64,
}
use tikka_contracts.Instance.Finalize.{do_finalize_with_seed}

abbrev pub randomness_min_delay_ledgers : ℕ
randomness_min_delay_ledgers = 10

abbrev pub is_quorum : RandomnessSource → Bool
is_quorum (quorum c) = true
is_quorum _ = false

-- The hashes of the commits of tickets `ticket_id`, `ticket_id + 1`, …, `count` of them.
abbrev pub entry_hash : Option CommitRevealEntry → Bytes
entry_hash none = []
entry_hash (some entry) = entry.hash

combined_commits : (ℕ → Option CommitRevealEntry) → ℕ → ℕ → Bytes
combined_commits entries ticket_id zero = []
combined_commits entries ticket_id (suc count) =
    entry_hash (entries ticket_id) ++ combined_commits entries (ticket_id + 1) count

commits_found : (ℕ → Option CommitRevealEntry) → ℕ → ℕ → ℕ
commits_found entries ticket_id zero = 0
commits_found entries ticket_id (suc count) =
    (if is_some (entries ticket_id) then 1 else 0) + commits_found entries (ticket_id + 1) count

-- The seed of a draw that asks no oracle.
unfoldable pub local_seed : Env → Raffle → Contract → ℕ
unfolding combined_commits commits_found build_internal_seed_u64 be_u64
local_seed env raffle s =
    if is_commit_reveal raffle.randomness_source
      && ltb 0 (commits_found s.commit_entries 1 raffle.tickets_sold)
    then be_u64 8 0 (env.sha256 (combined_commits s.commit_entries 1 raffle.tickets_sold))
    else build_internal_seed_u64 env

-- `request_randomness`, and the rollback of the drawing where it fails. The error undoes the rollback
-- too.
unfoldable pub request_or_revert : Env → Raffle → RaffleStatus → Contract → Call (ℕ × Contract)
unfolding request_randomness revert_status
request_or_revert env raffle pre_status s = elim (request_randomness env s) [
  | ok answer ↦ ok answer
  | err e ↦ do (reverted, s') ← revert_status raffle pre_status s; err e
  | trap ↦ trap
]

-- The branches of `finalize_raffle` after the drawing has begun, by the source of randomness.
unfoldable pub start_draw : Env → Raffle → RaffleStatus → Contract → Call Contract
unfolding request_or_revert do_finalize_with_seed local_seed
start_draw env raffle pre_status s =
    if is_quorum raffle.randomness_source
    then (do
      (request_id, s') ← request_or_revert env raffle pre_status s
      ok (record s' { quorum_submitted_oracles = [] }))
    else (if is_external raffle.randomness_source
        then (do (request_id, s') ← request_or_revert env raffle pre_status s; ok s')
        else do_finalize_with_seed env raffle (local_seed env raffle s) none s)

unfoldable pub finalize_raffle : Env → Contract → Call Contract
unfolding transition_status transition_to_drawing start_draw
finalize_raffle env s = do
  reject_if s.drawing_lock drawing_already_in_progress
  raffle ← read_raffle s
  require_auth env raffle.creator
  reject_if (not (status_eq raffle.status active) && not (status_eq raffle.status drawing))
      invalid_status
  let time_ended = not raffle.no_deadline && leb raffle.end_time env.timestamp
  let tickets_full = leb raffle.max_tickets raffle.tickets_sold
  reject_if (status_eq raffle.status active && not time_ended && not tickets_full)
      invalid_state_transition
  if raffle.tickets_sold == 0 || ltb raffle.tickets_sold raffle.min_tickets
      then (do (changed, s') ← transition_status raffle failed s; ok s')
      else (do
        (changed, s') ← transition_to_drawing raffle s
        start_draw env changed raffle.status s')

unfoldable pub derive_random_seed_from_proof : Env → Bytes → ℕ
unfolding be_u64
derive_random_seed_from_proof env proof = be_u64 8 0 (env.sha256 proof)

unfoldable pub provide_randomness : Env → ℕ → Bytes → Bytes → ℕ → Contract → Call Contract
unfolding derive_random_seed_from_proof do_finalize_with_seed
provide_randomness env random_seed public_key proof request_id s = do
  reject_if (not s.drawing_lock) drawing_already_complete
  raffle ← read_raffle s
  reject_if (is_quorum raffle.randomness_source) invalid_parameters
  oracle ← ok_or raffle.oracle_address oracle_not_set
  require_auth env oracle
  reject_if (not (status_eq raffle.status drawing)) invalid_state_transition
  reject_if (not s.randomness_requested) no_randomness_request
  ready ← or_trap (checked_u32 (s.randomness_request_ledger + randomness_min_delay_ledgers))
  reject_if (ltb env.sequence ready) randomness_too_early
  stored ← ok_or s.randomness_request_id no_randomness_request
  reject_if (not (stored == request_id)) invalid_parameters
  reject_if (not (derive_random_seed_from_proof env proof == random_seed)) invalid_parameters
  trap_unless (
      env.ed25519_verify public_key (env.vrf_message_xdr env.current_contract_address request_id)
        proof)
  do_finalize_with_seed env raffle random_seed none s

-- The refund branch: the raffle is cancelled and the request forgotten.
unfoldable pub abandon_draw : Raffle → Contract → Call Contract
unfolding transition_status
abandon_draw raffle s = do
  (changed, s') ← transition_status raffle cancelled s
  ok (record s' {
    randomness_requested = false;
    randomness_request_id = none;
    randomness_request_ledger = 0;
    drawing_lock = false;
  })

unfoldable pub trigger_randomness_fallback : Env → Address → Bool → Contract → Call Contract
unfolding abandon_draw build_internal_seed_u64 do_finalize_with_seed
trigger_randomness_fallback env caller do_refund s = do
  reject_if s.drawing_lock drawing_already_in_progress
  require_auth env caller
  raffle ← read_raffle s
  admin ← ok_or s.admin not_authorized
  reject_if (not (caller == raffle.creator) && not (caller == admin)) not_authorized
  reject_if (not (status_eq raffle.status drawing)) invalid_state_transition
  reject_if (not s.randomness_requested) no_randomness_request
  timeout ← or_trap (checked_u32 (s.randomness_request_ledger + oracle_timeout_ledgers))
  reject_if (ltb env.sequence timeout) fallback_too_early
  if do_refund
      then abandon_draw raffle s
      else do_finalize_with_seed env raffle (build_internal_seed_u64 env) none s

-- `oracles.get(i) == oracle` for some i
abbrev pub is_registered : List Address → Address → Bool
is_registered [] oracle = false
is_registered (addr ∷ oracles) oracle = addr == oracle || is_registered oracles oracle

-- The seeds of the submitted oracles, in the order of submission.
abbrev pub with_seed : Address → Option ℕ → List (Address × ℕ) → List (Address × ℕ)
with_seed a none rest = rest
with_seed a (some seed) rest = (a, seed) ∷ rest

unfoldable pub collect_seeds : List Address → (Address → Option ℕ) → List (Address × ℕ)
collect_seeds [] seeds = []
collect_seeds (a ∷ submitted) seeds = with_seed a (seeds a) (collect_seeds submitted seeds)

abbrev pub quorum_of : RandomnessSource → Option (ℕ × List Address)
quorum_of (quorum c) = some (c.k, c.oracles)
quorum_of _ = none

unfoldable pub provide_quorum_randomness : Env → Address → ℕ → ℕ → Contract → Call Contract
unfolding collect_seeds do_finalize_with_seed
provide_quorum_randomness env oracle random_seed request_id s = do
  reject_if (not s.drawing_lock) drawing_not_started
  require_auth env oracle
  raffle ← read_raffle s
  stored ← ok_or s.randomness_request_id no_randomness_request
  reject_if (not (stored == request_id)) invalid_parameters
  (k, oracles) ← ok_or (quorum_of raffle.randomness_source) invalid_parameters
  reject_if (not (is_registered oracles oracle)) oracle_not_registered
  reject_if (is_some (s.quorum_seeds oracle)) duplicate_oracle_submission
  let submitted = s.quorum_submitted_oracles ++ oracle ∷ []
  let recorded = record s {
    quorum_seeds = update s.quorum_seeds oracle (some random_seed);
    quorum_submitted_oracles = submitted;
  }
  if leb k (length submitted)
      then (do
        let seeds = collect_seeds submitted recorded.quorum_seeds
        do_finalize_with_seed env raffle (aggregate_quorum_seeds env.sha256 env.address_xdr seeds)
            (some seeds) recorded)
      else ok recorded
