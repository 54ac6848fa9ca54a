-- ===== src/Instance/Helpers.antt =====
-- The storage and lifecycle helpers of contracts/raffle-instance/src/helpers.rs.
use tikka_contracts.Prelude.{
  ℕ, ◌+◌, ◌-◌, ◌^◌, min, true, false, not, ◌||◌, Option, none, some, ltb, leb, ◌==◌, if◌then◌else◌,
  is_some,
}
use tikka_contracts.Prelude.Int.{ℤ, ltb_ℤ}
use tikka_contracts.Prelude.Outcome.{ok, ◌>>=◌, ◌>>◌, reject_if, trap_unless, ok_or, or_trap}
use tikka_contracts.Shared.Types.{Address, Ticket, be_u64}
use tikka_contracts.Shared.Status.{
  RaffleStatus, drawing, status_eq, can_transition_to, can_internal_revert_to,
}
use tikka_contracts.Instance.State.{
  Raffle, Contract, Env, Call, not_initialized, invalid_state_transition, reentrancy,
  not_authorized, randomness_already_requested, drawing_already_in_progress, contract_paused,
  token_transfer_failed, deadline_passed, slippage_exceeded,
}

-- Arithmetic of a `u32` and a `u64`: checked, and (with overflow checks on) plain.
abbrev pub checked_u32 : ℕ → Option ℕ
checked_u32 n = if ltb n (2 ^ 32) then some n else none

abbrev pub checked_u64 : ℕ → Option ℕ
checked_u64 n = if ltb n (2 ^ 64) then some n else none

abbrev pub saturating_add_u32 : ℕ → ℕ → ℕ
saturating_add_u32 a b = min (a + b) (2 ^ 32 - 1)

abbrev pub require_auth : Env → Address → Call (Unit {0})
require_auth env address = trap_unless (env.authorized address)

abbrev pub read_raffle : Contract → Call Raffle
read_raffle s = ok_or s.raffle not_initialized

abbrev pub write_raffle : Raffle → Contract → Contract
write_raffle raffle s = record s { raffle = some raffle }

-- Changes the status along the table and stores the raffle.
unfoldable pub transition_status : Raffle → RaffleStatus → Contract → Call (Raffle × Contract)
transition_status raffle new_status s = do
  reject_if (not (can_transition_to raffle.status new_status)) invalid_state_transition
  let changed = record raffle { status = new_status }
  ok (changed, write_raffle changed s)

unfoldable pub revert_status : Raffle → RaffleStatus → Contract → Call (Raffle × Contract)
revert_status raffle target s = do
  reject_if (not (can_internal_revert_to raffle.status target)) invalid_state_transition
  let changed = record raffle { status = target }
  ok (changed, write_raffle changed s)

unfoldable pub require_admin : Env → Contract → Call Address
require_admin env s = do admin ← ok_or s.admin not_authorized; require_auth env admin; ok admin

abbrev pub ticket_owner : Option Ticket → Option Address
ticket_owner none = none
ticket_owner (some t) = some t.owner

abbrev pub get_ticket_owner : Contract → ℕ → Option Address
get_ticket_owner s ticket_id = ticket_owner (s.tickets ticket_id)

unfoldable pub acquire_guard : Contract → Call Contract
acquire_guard s = do
  reject_if s.reentrancy_guard reentrancy
  ok (record s { reentrancy_guard = true })

abbrev pub release_guard : Contract → Contract
release_guard s = record s { reentrancy_guard = false }

unfoldable pub request_randomness : Env → Contract → Call (ℕ × Contract)
unfolding be_u64
request_randomness env s = do
  reject_if s.randomness_requested randomness_already_requested
  let xdr =
      env.request_xdr env.timestamp env.sequence (env.address_xdr env.current_contract_address)
  let request_id = be_u64 8 0 (env.sha256 xdr)
  ok (
    request_id,
    record s {
      randomness_requested = true;
      randomness_request_ledger = env.sequence;
      randomness_request_id = some request_id;
    },
  )

unfoldable pub transition_to_drawing : Raffle → Contract → Call (Raffle × Contract)
unfolding transition_status
transition_to_drawing raffle s = do
  reject_if s.drawing_lock drawing_already_in_progress
  reject_if (status_eq raffle.status drawing) drawing_already_in_progress
  (changed, s') ← transition_status raffle drawing s
  ok (changed, record s' { drawing_lock = true })

unfoldable pub require_not_paused : Contract → Call (Unit {0})
require_not_paused s = reject_if s.paused contract_paused

unfoldable pub require_global_not_paused : Env → Contract → Call (Unit {0})
require_global_not_paused env s = do
  factory ← ok_or s.factory not_initialized
  reject_if env.global_paused contract_paused

unfoldable pub build_internal_seed_u64 : Env → ℕ
unfolding be_u64
build_internal_seed_u64 env =
    be_u64 8 0 (env.sha256 (env.ledger_xdr env.timestamp env.sequence env.current_contract_address))

-- `try_transfer(..).map_err(..)?`, and the plain `transfer`, which panics
unfoldable pub try_transfer : Env → Address → Address → Address → ℤ → Contract → Call Contract
try_transfer env token from to amount s = do
  after ← ok_or (env.transfer token from to amount s.balances) token_transfer_failed
  ok (record s { balances = after })

unfoldable pub transfer : Env → Address → Address → Address → ℤ → Contract → Call Contract
transfer env token from to amount s = do
  after ← or_trap (env.transfer token from to amount s.balances)
  ok (record s { balances = after })

-- The notifications of the factory, where one is stored.
abbrev pub notify_factory : Env → Contract → Call (Unit {0})
notify_factory env s = trap_unless (not (is_some s.factory) || env.notified)

-- The window of `bump_raffle_ttl`: the first ticket whose entry is extended, how many, and the index
-- that is stored. The extensions themselves change nothing that the contract reads.
pub record BumpWindow : Type 0 where
  pub first : ℕ
  pub count : ℕ
  pub next : ℕ

unfoldable pub bump_window : ℕ → ℕ → BumpWindow
bump_window last total_tickets =
    let start = min last total_tickets in
    let end = min (saturating_add_u32 start 100) total_tickets in
    record {
      first = saturating_add_u32 start 1;
      count = end - start;
      next = if leb total_tickets end then 0 else end;
    }

unfoldable pub bump_raffle_ttl : ℕ → Contract → Contract
unfolding bump_window
bump_raffle_ttl total_tickets s =
    if total_tickets == 0
    then s
    else record s { last_bumped_index = (bump_window s.last_bumped_index total_tickets).next }

unfoldable pub enforce_swap_guard : Env → Raffle → ℤ → ℤ → Call (Unit {0})
enforce_swap_guard env raffle amount_out min_amount_out = do
  deadline ← or_trap (checked_u64 (env.timestamp + raffle.swap_deadline_seconds))
  reject_if (ltb deadline env.timestamp) deadline_passed
  reject_if (ltb_ℤ amount_out min_amount_out) slippage_exceeded
