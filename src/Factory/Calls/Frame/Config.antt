-- ===== src/Factory/Calls/Frame/Config.antt =====
-- What the calls that change settings or recurring raffles leave as it was.
use tikka_contracts.Factory.Calls.Frame.{KeepsRegister, KeepsBooks}
use tikka_contracts.Prelude.{ℕ, Option}
use tikka_contracts.Prelude.Outcome.{Returns, Returns-bind, Returns-ok, Returns-then, returns_rules}
use tikka_contracts.Shared.Types.{Address, Bytes}
use tikka_contracts.Factory.State.{
  Factory, FactoryEnv, PendingOp, AdminOp, ConfigKey, RecurringRaffleConfig, set_config_address,
  set_protocol_fee_bp, update_wasm_hash, approve_oracle, remove_oracle, treasury, oracle,
  swap_router,
}
use tikka_contracts.Factory.Roles.{init_factory}
use tikka_contracts.Factory.Config.{
  set_config, propose_fee_change, propose_wasm_upgrade, execute_config_change, cancel_config_change,
  queue_op, apply_op,
}
use tikka_contracts.Factory.Recurring.{create_recurring_raffle}

pub init_factory-KeepsRegister :
    (env : FactoryEnv) (admin : Address) (hash : Bytes) (fee : ℕ) (safe : Address) (s : Factory)
    → Returns (KeepsRegister s) (init_factory env admin hash fee safe s)
unfolding init_factory
init_factory-KeepsRegister env admin hash fee safe s = search (returns_rules) depth 50

pub set_config-KeepsRegister :
    (env : FactoryEnv) (key : ConfigKey) (a : Address) (s : Factory)
    → Returns (λ r. KeepsRegister s r.1) (set_config env key a s)
unfolding set_config queue_op
set_config-KeepsRegister env key a s = search (returns_rules) depth 50

pub propose_fee_change-KeepsRegister :
    (env : FactoryEnv) (fee : ℕ) (s : Factory)
    → Returns (λ r. KeepsRegister s r.1) (propose_fee_change env fee s)
unfolding propose_fee_change queue_op
propose_fee_change-KeepsRegister env fee s = search (returns_rules) depth 50

pub propose_wasm_upgrade-KeepsRegister :
    (env : FactoryEnv) (hash : Bytes) (s : Factory)
    → Returns (λ r. KeepsRegister s r.1) (propose_wasm_upgrade env hash s)
unfolding propose_wasm_upgrade queue_op
propose_wasm_upgrade-KeepsRegister env hash s = search (returns_rules) depth 50

pub cancel_config_change-KeepsRegister :
    (env : FactoryEnv) (id : ℕ) (s : Factory)
    → Returns (KeepsRegister s) (cancel_config_change env id s)
unfolding cancel_config_change
cancel_config_change-KeepsRegister env id s = search (returns_rules) depth 50

pub create_recurring_raffle-KeepsBooks :
    (env : FactoryEnv) (a : Address) (config : RecurringRaffleConfig) (s : Factory)
    → Returns (λ r. KeepsBooks s r.1) (create_recurring_raffle env a config s)
unfolding create_recurring_raffle
create_recurring_raffle-KeepsBooks env a config s = search (returns_rules) depth 50

pub apply_op-KeepsRegister :
    (env : FactoryEnv) (op : AdminOp) (s : Factory) → Returns (KeepsRegister s) (apply_op env op s)
unfolding apply_op
apply_op-KeepsRegister env (set_config_address treasury a) s = search (returns_rules) depth 40
apply_op-KeepsRegister env (set_config_address oracle a) s = search (returns_rules) depth 40
apply_op-KeepsRegister env (set_config_address swap_router a) s = search (returns_rules) depth 40
apply_op-KeepsRegister env (set_protocol_fee_bp fee) s = search (returns_rules) depth 40
apply_op-KeepsRegister env (update_wasm_hash hash) s = search (returns_rules) depth 40
apply_op-KeepsRegister env (approve_oracle a) s = search (returns_rules) depth 40
apply_op-KeepsRegister env (remove_oracle a) s = search (returns_rules) depth 40

pub with_pending_op-KeepsRegister :
    (s t : Factory) (ops : ℕ → Option PendingOp)
    → KeepsRegister s t
    → KeepsRegister s (record t { pending_op = ops })
with_pending_op-KeepsRegister s t ops h = record {
  register = h.register;
  rounds = h.rounds;
  grows = h.grows;
}

pub execute_config_change-KeepsRegister :
    (env : FactoryEnv) (id : ℕ) (s : Factory)
    → Returns (KeepsRegister s) (execute_config_change env id s)
unfolding execute_config_change
execute_config_change-KeepsRegister env id s = Returns-bind _ _ (λ admin e.
    Returns-bind _ _ (λ pending e. Returns-bind _ _ (λ u e.
      Returns-then _ (apply_op-KeepsRegister env pending.op s)
        (λ t h. Returns-ok _ (with_pending_op-KeepsRegister s t _ h)))))
