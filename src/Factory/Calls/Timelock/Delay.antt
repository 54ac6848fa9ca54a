-- ===== src/Factory/Calls/Timelock/Delay.antt =====
-- How long a queued operation waits.
use tikka_contracts.Prelude.{ℕ, ◌+◌, ◌<◌, ◌≤◌, ◌≡◌, ◌≢◌, inl, inr, some, arith}
use tikka_contracts.Prelude.Outcome.{
  ok, Returns, Returns-bind, Returns-ok, ok_or-eq-ok, reject_if-eq-ok, returns_rules,
}
use tikka_contracts.Shared.Types.{Address, Bytes}
use tikka_contracts.Shared.Constants.{timelock_delay_seconds}
use tikka_contracts.Factory.State.{Factory, FactoryEnv, PendingOp, AdminOp, ConfigKey}
use tikka_contracts.Factory.Config.{
  queue_op, set_config, propose_fee_change, propose_wasm_upgrade, execute_config_change,
}
use tikka_contracts.Factory.Calls.{FactoryRun, run_start, run_call, run_raffle_call, run_moved}
use tikka_contracts.Factory.Calls.Settings.{or_trap-checked_u64}
use tikka_contracts.Factory.Calls.Timelock.{factory_perform-Tends}

-- An operation that becomes effective at a time, from then on in a run.
run-keeps-deadline :
    {since deadline id : ℕ} {s t : Factory}
    → deadline ≤ since + timelock_delay_seconds
    → ((op : PendingOp) → s.pending_op id ≡ some op → deadline ≤ op.effective_timestamp)
    → FactoryRun since s t
    → (op : PendingOp) → t.pending_op id ≡ some op
    → deadline ≤ op.effective_timestamp
run-keeps-deadline d h run_start op e = h op e
run-keeps-deadline {id = id} d h (run_call {t} {u} env request run later e) op k =
    elim (((factory_perform-Tends env request t).at e).ops id op k) [
      | inl l ↦ run-keeps-deadline d h run op l
      | inr l ↦ omega (arith, l.0)
    ]
run-keeps-deadline d h (run_raffle_call address after run) op k = run-keeps-deadline d h run op k
run-keeps-deadline d h (run_moved balances run) op k = run-keeps-deadline d h run op k

-- Which operation a call has queued.
pub data Proposes (env : FactoryEnv) (s : Factory) (id : ℕ) (t : Factory) : Type 0 where
  by_set_config :
      (key : ConfigKey) (address : Address)
      → set_config env key address s ≡ ok (id, t)
      → Proposes env s id t
  by_fee_change : (fee : ℕ) → propose_fee_change env fee s ≡ ok (id, t) → Proposes env s id t
  by_wasm_upgrade :
      (hash : Bytes) → propose_wasm_upgrade env hash s ≡ ok (id, t) → Proposes env s id t

abbrev HasDeadline : FactoryEnv → ℕ × Factory → Type 0
HasDeadline env r =
    (op : PendingOp)
    → r.1.pending_op r.0 ≡ some op
    → env.host.timestamp + timelock_delay_seconds ≤ op.effective_timestamp

queue_op-HasDeadline :
    (env : FactoryEnv) (admin : Address) (op : AdminOp) (s : Factory)
    → Returns (HasDeadline env) (queue_op env admin op s)
unfolding queue_op
queue_op-HasDeadline env admin op s =
    Returns-bind _ _ (λ effective e. Returns-ok _ (λ o h. ground (arith, or_trap-checked_u64 _ e)))

set_config-HasDeadline :
    (env : FactoryEnv) (key : ConfigKey) (a : Address) (s : Factory)
    → Returns (HasDeadline env) (set_config env key a s)
unfolding set_config
set_config-HasDeadline env key a s = search (queue_op-HasDeadline, returns_rules) depth 50

propose_fee_change-HasDeadline :
    (env : FactoryEnv) (fee : ℕ) (s : Factory)
    → Returns (HasDeadline env) (propose_fee_change env fee s)
unfolding propose_fee_change
propose_fee_change-HasDeadline env fee s = search (queue_op-HasDeadline, returns_rules) depth 50

propose_wasm_upgrade-HasDeadline :
    (env : FactoryEnv) (hash : Bytes) (s : Factory)
    → Returns (HasDeadline env) (propose_wasm_upgrade env hash s)
unfolding propose_wasm_upgrade
propose_wasm_upgrade-HasDeadline env hash s = search (queue_op-HasDeadline, returns_rules) depth 50

Proposes-HasDeadline :
    {env : FactoryEnv} {s t : Factory} {id : ℕ} → Proposes env s id t → HasDeadline env (id, t)
Proposes-HasDeadline {env} {s} (by_set_config key a e) = (set_config-HasDeadline env key a s).at e
Proposes-HasDeadline {env} {s} (by_fee_change fee e) =
    (propose_fee_change-HasDeadline env fee s).at e
Proposes-HasDeadline {env} {s} (by_wasm_upgrade hash e) =
    (propose_wasm_upgrade-HasDeadline env hash s).at e

execute-waits :
    (env : FactoryEnv) (id deadline : ℕ) (s : Factory)
    → ((op : PendingOp) → s.pending_op id ≡ some op → deadline ≤ op.effective_timestamp)
    → env.host.timestamp < deadline
    → Returns (λ t. ⊥) (execute_config_change env id s)
unfolding execute_config_change
execute-waits env id deadline s h early = Returns-bind _ _ (λ admin e.
    Returns-bind _ _ (λ pending e. Returns-bind _ _ (λ u k.
      absurd (ground (arith, early, h pending (ok_or-eq-ok _ _ e), reject_if-eq-ok _ _ k)))))

-- An operation that is proposed is not executed in the 172,800 seconds that follow, after whatever calls
-- from the time of the proposal on.
pub no_early_execution :
    {env : FactoryEnv} {s t u : Factory} {id : ℕ} (later : FactoryEnv)
    → Proposes env s id t
    → FactoryRun env.host.timestamp t u
    → later.host.timestamp < env.host.timestamp + timelock_delay_seconds
    → (v : Factory) → execute_config_change later id u ≢ ok v
no_early_execution {env} {s} {t} {u} {id} later proposed run early v e =
    (execute-waits later id (env.host.timestamp + timelock_delay_seconds) u
        (run-keeps-deadline (omega arith) (Proposes-HasDeadline proposed) run) early).at
      e
