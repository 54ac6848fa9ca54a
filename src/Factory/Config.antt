-- ===== src/Factory/Config.antt =====
-- The timelocked configuration of contracts/raffle-factory/src/lib.rs: operations are proposed, and
-- executed or cancelled later.
pub mod Outcomes
use tikka_contracts.Prelude.{
  ℕ, zero, suc, ◌+◌, ◌^◌, Bool, true, false, not, ◌||◌, Option, none, some, ltb, leb, ◌==◌,
  if◌then◌else◌, is_some,
}
use tikka_contracts.Prelude.Outcome.{Outcome, ok, err, ◌>>=◌, ◌>>◌, reject_if, ok_or, or_trap}
use tikka_contracts.Shared.Types.{Address, Bytes}
use tikka_contracts.Shared.Constants.{max_protocol_fee_bp, timelock_delay_seconds}
use tikka_contracts.Instance.State.{update}
use tikka_contracts.Instance.Helpers.{checked_u64, saturating_add_u32}
use tikka_contracts.Factory.State.{
  Factory, FactoryEnv, FactoryCall, ConfigKey, treasury, oracle, swap_router, AdminOp,
  set_config_address, set_protocol_fee_bp, update_wasm_hash, approve_oracle, remove_oracle,
  PendingOp, invalid_parameters, no_pending_op, timelock_not_elapsed,
}
use tikka_contracts.Factory.Roles.{require_admin, require_valid_role_address}

-- The part that `set_config`, `propose_fee_change` and `propose_wasm_upgrade` share.
unfoldable pub queue_op : FactoryEnv → Address → AdminOp → Factory → FactoryCall (ℕ × Factory)
queue_op env admin op s = do
  let op_id = saturating_add_u32 s.op_counter 1
  effective ← or_trap (checked_u64 (env.host.timestamp + timelock_delay_seconds))
  let pending : PendingOp = record { op = op; effective_timestamp = effective; proposed_by = admin }
  ok (op_id, record s { op_counter = op_id; pending_op = update s.pending_op op_id (some pending) })

unfoldable pub set_config : FactoryEnv → ConfigKey → Address → Factory → FactoryCall (ℕ × Factory)
unfolding require_admin require_valid_role_address queue_op
set_config env key address s = do
  admin ← require_admin env s
  require_valid_role_address env address
  queue_op env admin (set_config_address key address) s

unfoldable pub propose_fee_change : FactoryEnv → ℕ → Factory → FactoryCall (ℕ × Factory)
unfolding require_admin queue_op
propose_fee_change env protocol_fee_bp s = do
  admin ← require_admin env s
  reject_if (ltb max_protocol_fee_bp protocol_fee_bp) invalid_parameters
  queue_op env admin (set_protocol_fee_bp protocol_fee_bp) s

unfoldable pub propose_wasm_upgrade : FactoryEnv → Bytes → Factory → FactoryCall (ℕ × Factory)
unfolding require_admin queue_op
propose_wasm_upgrade env new_wasm_hash s = do
  admin ← require_admin env s
  queue_op env admin (update_wasm_hash new_wasm_hash) s

-- The oracle and the swap router are placeholders in the source.
abbrev set_config_key : ConfigKey → Address → Factory → Factory
set_config_key treasury address s = record s { treasury = some address }
set_config_key oracle address s = s
set_config_key swap_router address s = s

-- The `match` on the operation.
unfoldable pub apply_op : FactoryEnv → AdminOp → Factory → FactoryCall Factory
unfolding require_valid_role_address
apply_op env (set_config_address key address) s = do
  require_valid_role_address env address
  ok (set_config_key key address s)
apply_op env (set_protocol_fee_bp protocol_fee_bp) s = do
  reject_if (ltb max_protocol_fee_bp protocol_fee_bp) invalid_parameters
  ok (record s { protocol_fee_bp = protocol_fee_bp })
apply_op env (update_wasm_hash new_hash) s = ok (record s { instance_wasm_hash = some new_hash })
apply_op env (approve_oracle o) s =
    ok (record s { approved_oracle = update s.approved_oracle o true })
apply_op env (remove_oracle o) s =
    ok (record s { approved_oracle = update s.approved_oracle o false })

unfoldable pub execute_config_change : FactoryEnv → ℕ → Factory → FactoryCall Factory
unfolding require_admin apply_op
execute_config_change env op_id s = do
  admin ← require_admin env s
  pending ← ok_or (s.pending_op op_id) no_pending_op
  reject_if (ltb env.host.timestamp pending.effective_timestamp) timelock_not_elapsed
  applied ← apply_op env pending.op s
  ok (record applied { pending_op = update applied.pending_op op_id none })

unfoldable pub cancel_config_change : FactoryEnv → ℕ → Factory → FactoryCall Factory
unfolding require_admin
cancel_config_change env op_id s = do
  admin ← require_admin env s
  reject_if (not (is_some (s.pending_op op_id))) no_pending_op
  ok (record s { pending_op = update s.pending_op op_id none })
