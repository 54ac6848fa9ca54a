-- ===== src/Factory/Calls/Settings.antt =====
-- The protocol fee and the timelocked operations in every state that the calls reach.
use mathlib.Core.Path.{subst}
use tikka_contracts.Prelude.{
  ℕ, ◌+◌, ◌<◌, ◌≤◌, ◌^◌, ◌≡◌, refl, sym, ap, ◌∙◌, ◌⊎◌, inl, inr, Option, none, some, arith,
}
use tikka_contracts.Prelude.Outcome.{
  Outcome, ok, or_trap, Returns, Returns-bind, Returns-ok, Returns-then, reject_if-eq-ok,
  returns_rules,
}
use tikka_contracts.Shared.Types.{Address, Bytes}
use tikka_contracts.Shared.Constants.{max_protocol_fee_bp, timelock_delay_seconds}
use tikka_contracts.Instance.State.{update}
use tikka_contracts.Instance.Helpers.{saturating_add_u32, checked_u64}
use tikka_contracts.Factory.State.{
  Factory, ContractError, FactoryEnv, PendingOp, AdminOp, ConfigKey, set_config_address,
  set_protocol_fee_bp, update_wasm_hash, approve_oracle, remove_oracle, treasury, oracle,
  swap_router,
}
use tikka_contracts.Factory.Roles.{init_factory}
use tikka_contracts.Factory.Config.{
  queue_op, set_config, propose_fee_change, propose_wasm_upgrade, apply_op, execute_config_change,
  cancel_config_change,
}
use tikka_contracts.Factory.Calls.Frame.{Settings, settings_of}

-- What a call at a time does: the fee stays below its cap, the counter never falls, and an operation is
-- new only under the next id, with the delay ahead of it.
pub record Tends (now : ℕ) (s t : Settings) : Type 0 where
  pub fee : s.fee ≤ max_protocol_fee_bp → t.fee ≤ max_protocol_fee_bp
  pub counter_le : s.counter < 2 ^ 32 → (s.counter ≤ t.counter) × (t.counter < 2 ^ 32)
  pub ops :
      (i : ℕ) (op : PendingOp)
      → t.ops i ≡ some op
      → (s.ops i ≡ some op)
        ⊎ ((now + timelock_delay_seconds ≤ op.effective_timestamp)
            × (i ≡ saturating_add_u32 s.counter 1)
            × (t.counter ≡ i))

pub Keeps-Tends : (now : ℕ) (s t : Settings) → t ≡ s → Tends now s t
Keeps-Tends now s t h =
    subst (Tends now s) (sym h)
      (record { fee = λ k. k; counter_le = λ k. (omega arith, k); ops = λ i op e. inl e })

abbrev pub Tending : FactoryEnv → Factory → Factory → Type 0
Tending env s t = Tends env.host.timestamp (settings_of s) (settings_of t)

update-some-eq :
    (f : ℕ → Option PendingOp) (n i : ℕ) (p o : PendingOp)
    → update f n (some p) i ≡ some o
    → ((i ≡ n) × (p.effective_timestamp ≡ o.effective_timestamp)) ⊎ (f i ≡ some o)
update-some-eq f n i p o h = ground arith

pub update-none-eq :
    (f : ℕ → Option PendingOp) (n i : ℕ) (o : PendingOp) → update f n none i ≡ some o → f i ≡ some o
update-none-eq f n i o h = ground arith

pub or_trap-checked_u64 :
    (n : ℕ) {m : ℕ} → ◌≡◌ {A = Outcome ContractError ℕ} (or_trap (checked_u64 n)) (ok m) → m ≡ n
or_trap-checked_u64 n h = ground arith

queue_op-Tends :
    (env : FactoryEnv) (admin : Address) (op : AdminOp) (s : Factory)
    → Returns (λ r. Tending env s r.1) (queue_op env admin op s)
unfolding queue_op
queue_op-Tends env admin op s = Returns-bind _ _ (λ effective e. Returns-ok _ (record {
  fee = λ k. k;
  counter_le = λ k. ground arith;
  ops = λ i o h. elim (update-some-eq s.pending_op _ i _ o h) [
    | inl k ↦ inr (omega (arith, k.1, or_trap-checked_u64 _ e), k.0, sym k.0)
    | inr k ↦ inl k
  ];
}))

pub set_config-Tends :
    (env : FactoryEnv) (key : ConfigKey) (a : Address) (s : Factory)
    → Returns (λ r. Tending env s r.1) (set_config env key a s)
unfolding set_config
set_config-Tends env key a s = search (queue_op-Tends, returns_rules) depth 50

pub propose_fee_change-Tends :
    (env : FactoryEnv) (fee : ℕ) (s : Factory)
    → Returns (λ r. Tending env s r.1) (propose_fee_change env fee s)
unfolding propose_fee_change
propose_fee_change-Tends env fee s = search (queue_op-Tends, returns_rules) depth 50

pub propose_wasm_upgrade-Tends :
    (env : FactoryEnv) (hash : Bytes) (s : Factory)
    → Returns (λ r. Tending env s r.1) (propose_wasm_upgrade env hash s)
unfolding propose_wasm_upgrade
propose_wasm_upgrade-Tends env hash s = search (queue_op-Tends, returns_rules) depth 50

-- The fee is set to a tested one, and operations are removed.
lowers-Tends :
    (now : ℕ) (s t : Settings) (id : ℕ)
    → (s.fee ≤ max_protocol_fee_bp → t.fee ≤ max_protocol_fee_bp)
    → t.counter ≡ s.counter
    → t.ops ≡ update s.ops id none
    → Tends now s t
lowers-Tends now s t id hf hc ho = record {
  fee = hf;
  counter_le = λ k. omega (arith, hc);
  ops = λ i op e. inl (update-none-eq s.ops id i op (sym (ap (λ f. f i) ho) ∙ e));
}

pub cancel_config_change-Tends :
    (env : FactoryEnv) (id : ℕ) (s : Factory)
    → Returns (Tending env s) (cancel_config_change env id s)
unfolding cancel_config_change
cancel_config_change-Tends env id s = Returns-bind _ _ (λ admin e.
    Returns-bind _ _ (λ u e. Returns-ok _ (lowers-Tends _ (settings_of s) _ id (λ k. k) refl refl)))

-- What an operation leaves.
record Applies (s t : Factory) : Type 0 where
  fee : s.protocol_fee_bp ≤ max_protocol_fee_bp → t.protocol_fee_bp ≤ max_protocol_fee_bp
  counter : t.op_counter ≡ s.op_counter
  ops : t.pending_op ≡ s.pending_op

apply_op-Applies :
    (env : FactoryEnv) (op : AdminOp) (s : Factory) → Returns (Applies s) (apply_op env op s)
unfolding apply_op
apply_op-Applies env (set_config_address treasury a) s = search (returns_rules) depth 40
apply_op-Applies env (set_config_address oracle a) s = search (returns_rules) depth 40
apply_op-Applies env (set_config_address swap_router a) s = search (returns_rules) depth 40
apply_op-Applies env (set_protocol_fee_bp fee) s = Returns-bind _ _ (λ u e.
    Returns-ok _
      (record { fee = λ k. ground (arith, reject_if-eq-ok _ _ e); counter = refl; ops = refl }))
apply_op-Applies env (update_wasm_hash hash) s = search (returns_rules) depth 40
apply_op-Applies env (approve_oracle a) s = search (returns_rules) depth 40
apply_op-Applies env (remove_oracle a) s = search (returns_rules) depth 40

pub execute_config_change-Tends :
    (env : FactoryEnv) (id : ℕ) (s : Factory)
    → Returns (Tending env s) (execute_config_change env id s)
unfolding execute_config_change
execute_config_change-Tends env id s = Returns-bind _ _ (λ admin e. Returns-bind _ _ (λ pending e.
    Returns-bind _ _ (λ u e. Returns-then _ (apply_op-Applies env pending.op s) (λ t h.
      Returns-ok _
        (lowers-Tends _ (settings_of s) _ id h.fee h.counter (ap (λ f. update f id none) h.ops))))))

pub init_factory-Tends :
    (env : FactoryEnv) (admin : Address) (hash : Bytes) (fee : ℕ) (safe : Address) (s : Factory)
    → Returns (Tending env s) (init_factory env admin hash fee safe s)
unfolding init_factory
init_factory-Tends env admin hash fee safe s = Returns-bind _ _ (λ u e. Returns-bind _ _ (λ u e.
    Returns-bind _ _ (λ u k. Returns-bind _ _ (λ u k. Returns-ok _ (record {
      fee = λ k. ground (arith, reject_if-eq-ok _ _ e);
      counter_le = λ k. (omega arith, k);
      ops = λ i op k. inl k;
    })))))
