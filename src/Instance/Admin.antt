-- ===== src/Instance/Admin.antt =====
-- contracts/raffle-instance/src/admin.rs: what the admin, the creator and the factory may change.
pub mod Tokens
pub mod Guards
pub mod Rescue
use tikka_contracts.Prelude.{
  ℕ, ◌+◌, ◌*◌, ◌-◌, Bool, true, false, not, ◌&&◌, ◌||◌, Option, none, some, ltb, leb, ◌==◌,
  if◌then◌else◌,
}
use tikka_contracts.Prelude.Outcome.{ok, err, ◌>>=◌, ◌>>◌, reject_if, trap_unless, ok_or, or_trap}
use tikka_contracts.Shared.Types.{Address, Bytes, CancelReason, admin_cancelled, is_external}
use tikka_contracts.Shared.Constants.{
  max_protocol_fee_bp, max_swap_deadline_seconds, timelock_delay_seconds,
}
use tikka_contracts.Shared.Status.{RaffleStatus, active, finalized, cancelled, claimed, status_eq}
use tikka_contracts.Instance.State.{
  Raffle, Contract, Env, Call, not_authorized, invalid_admin_address, invalid_parameters,
  invalid_status, arithmetic_overflow, cancel_not_scheduled, cancel_timelock_active,
  not_initialized,
}
use tikka_contracts.Instance.Helpers.{
  checked_u64, require_auth, require_admin, read_raffle, write_raffle, transition_status,
}

-- The statuses in which `cancel_raffle` and its kin refuse to act.
abbrev pub is_settled : RaffleStatus → Bool
is_settled status =
    status_eq status finalized || status_eq status cancelled || status_eq status claimed

unfoldable pub update_oracle_address : Env → Address → Contract → Call Contract
unfolding require_admin
update_oracle_address env new_oracle s = do
  admin ← require_admin env s
  raffle ← read_raffle s
  reject_if (not (is_external raffle.randomness_source)) invalid_parameters
  reject_if (new_oracle == env.current_contract_address) invalid_parameters
  reject_if (is_settled raffle.status) invalid_status
  ok (write_raffle (record raffle { oracle_address = some new_oracle }) s)

unfoldable pub set_protocol_fee_bp : Env → ℕ → Contract → Call Contract
unfolding require_admin
set_protocol_fee_bp env new_fee_bp s = do
  admin ← require_admin env s
  reject_if (ltb max_protocol_fee_bp new_fee_bp) invalid_parameters
  raffle ← read_raffle s
  reject_if (ltb 0 raffle.tickets_sold) invalid_status
  ok (write_raffle (record raffle { protocol_fee_bp = new_fee_bp }) s)

unfoldable pub set_swap_deadline : Env → ℕ → Contract → Call Contract
unfolding require_admin
set_swap_deadline env new_deadline_seconds s = do
  admin ← require_admin env s
  reject_if (ltb max_swap_deadline_seconds new_deadline_seconds) invalid_parameters
  raffle ← read_raffle s
  reject_if (ltb 0 raffle.tickets_sold) invalid_status
  ok (write_raffle (record raffle { swap_deadline_seconds = new_deadline_seconds }) s)

abbrev pub is_admin_cancelled : CancelReason → Bool
is_admin_cancelled admin_cancelled = true
is_admin_cancelled _ = false

-- The admin's cancel is only scheduled.
unfoldable pub schedule_cancel : Env → Contract → Call Contract
schedule_cancel env s = do
  admin ← ok_or s.admin not_authorized
  require_auth env admin
  cancel_at ← ok_or (checked_u64 (env.timestamp + timelock_delay_seconds)) arithmetic_overflow
  ok (record s { pending_admin_cancel = some cancel_at })

unfoldable pub cancel_now : Raffle → Contract → Call Contract
unfolding transition_status
cancel_now raffle s = do
  reject_if (is_settled raffle.status) invalid_status
  (changed, s') ← transition_status raffle cancelled s
  ok s'

unfoldable pub cancel_raffle : Env → CancelReason → Contract → Call Contract
unfolding schedule_cancel cancel_now
cancel_raffle env reason s = do
  raffle ← read_raffle s
  if is_admin_cancelled reason
      then schedule_cancel env s
      else (do require_auth env raffle.creator; cancel_now raffle s)

unfoldable pub execute_admin_cancel : Env → Contract → Call Contract
unfolding cancel_now
execute_admin_cancel env s = do
  raffle ← read_raffle s
  cancel_at ← ok_or s.pending_admin_cancel cancel_not_scheduled
  reject_if (ltb env.timestamp cancel_at) cancel_timelock_active
  s' ← cancel_now raffle s
  ok (record s' { pending_admin_cancel = none })

unfoldable pub update_metadata_hash : Env → Bytes → Contract → Call Contract
unfolding require_admin
update_metadata_hash env new_hash s = do
  admin ← require_admin env s
  old_hash ← ok_or s.metadata_hash not_initialized
  ok (record s { metadata_hash = some new_hash })

-- `pause` and `unpause`
unfoldable pub set_paused : Env → Bool → Contract → Call Contract
set_paused env paused s = do
  factory ← ok_or s.factory not_authorized
  require_auth env factory
  ok (record s { paused = paused })

-- `pause_ticket_sales` and `resume_ticket_sales`
unfoldable pub set_ticket_sales_paused : Env → Address → Bool → Contract → Call Contract
set_ticket_sales_paused env caller paused s = do
  require_auth env caller
  raffle ← read_raffle s
  admin ← ok_or s.admin not_authorized
  reject_if (not (caller == raffle.creator) && not (caller == admin)) not_authorized
  reject_if (not (status_eq raffle.status active)) invalid_status
  ok (write_raffle (record raffle { ticket_sales_paused = paused }) s)
