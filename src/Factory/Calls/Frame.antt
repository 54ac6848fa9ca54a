-- ===== src/Factory/Calls/Frame.antt =====
-- What the calls of the factory leave as it was: the register of raffles, the settings, and that a
-- deployed contract stays deployed.
pub mod Config
use tikka_contracts.Prelude.{ℕ, Bool, true, Option, none, some, List, ◌≡◌, refl, arith, is_some}
use tikka_contracts.Prelude.Int.{ℤ}
use tikka_contracts.Prelude.Outcome.{
  ok, err, trap, Returns, Returns-bind, Returns-ok, Returns-trap, Returns-then, returns_rules,
}
use tikka_contracts.Shared.Types.{Address, Bytes}
use tikka_contracts.Instance.State.{Contract, Env, Call, update}
use tikka_contracts.Factory.State.{
  Factory, ContractError, FactoryEnv, PendingOp, AdminOp, ConfigKey, RecurringRaffleConfig,
  RecurringRaffleEntry, set_config_address, set_protocol_fee_bp, update_wasm_hash, approve_oracle,
  remove_oracle, treasury, oracle, swap_router,
}
use tikka_contracts.Factory.Roles.{
  init_factory, set_factory_paused, set_creation_paused, set_creation_delay, set_emergency_pause,
  transfer_factory_admin, accept_factory_admin, invoke_contract, instance_host, store_instance,
  sync_admin, set_instance_paused, rescue_tokens,
}
use tikka_contracts.Factory.Config.{
  set_config, propose_fee_change, propose_wasm_upgrade, execute_config_change, cancel_config_change,
  queue_op, apply_op,
}
use tikka_contracts.Factory.Recurring.{create_recurring_raffle, cancel_recurring_raffle}
use tikka_contracts.Factory.Tracking.{
  record_volume, track_participant, record_leaderboard_entry, set_whitelist_status,
  set_profile_name, set_verified,
}

-- The entries that number and find the raffles.
pub record Register : Type 0 where
  pub by_id : ℕ → Option Address
  pub next_id : ℕ
  pub live : ℕ
  pub created : ℕ
  pub creators : ℕ → Option Address

abbrev pub register_of : Factory → Register
register_of s = record {
  by_id = s.raffle_by_id;
  next_id = s.next_raffle_id;
  live = s.raffle_count;
  created = s.total_raffles_created;
  creators = s.raffle_creator;
}

-- The entries that only a timelocked operation may change, and the operations.
pub record Settings : Type 0 where
  pub fee : ℕ
  pub counter : ℕ
  pub ops : ℕ → Option PendingOp

abbrev pub settings_of : Factory → Settings
settings_of s = record { fee = s.protocol_fee_bp; counter = s.op_counter; ops = s.pending_op }

-- The recurring raffles and the raffles of their rounds.
pub record Rounds : Type 0 where
  pub entries : ℕ → Option RecurringRaffleEntry
  pub raffles : ℕ → List Address

abbrev pub rounds_of : Factory → Rounds
rounds_of s = record { entries = s.recurring_raffle; raffles = s.recurring_raffle_instances }

abbrev pub Grows : (Address → Option Contract) → (Address → Option Contract) → Type 0
Grows before after = (a : Address) → is_some (before a) ≡ true → is_some (after a) ≡ true

-- The register is as it was.
pub record KeepsRegister (s t : Factory) : Type 0 where
  pub register : register_of t ≡ register_of s
  pub rounds : rounds_of t ≡ rounds_of s
  pub grows : Grows s.instances t.instances

-- All but the recurring raffles are as they were.
pub record KeepsBooks (s t : Factory) : Type 0 where
  pub register : register_of t ≡ register_of s
  pub settings : settings_of t ≡ settings_of s
  pub grows : Grows s.instances t.instances

pub record Keeps (s t : Factory) : Type 0 where
  pub register : register_of t ≡ register_of s
  pub rounds : rounds_of t ≡ rounds_of s
  pub settings : settings_of t ≡ settings_of s
  pub grows : Grows s.instances t.instances

pub update-Grows :
    (f : Address → Option Contract) (address : Address) (c : Contract)
    → Grows f (update f address (some c))
update-Grows f address c a h = ground arith

pub invoke_contract-Keeps :
    (env : FactoryEnv) (address : Address) (method : Env → Contract → Call Contract) (s : Factory)
    → Returns (Keeps s) (invoke_contract env address method s)
unfolding invoke_contract
invoke_contract-Keeps env address method s = stored (s.instances address)
  where
    after : (m : Call Contract) → Returns {E = ContractError} (Keeps s) (store_instance address s m)
    after (ok c) = Returns-ok _ (record {
      register = refl;
      rounds = refl;
      settings = refl;
      grows = update-Grows s.instances address c;
    })
    after (err e) = Returns-trap
    after trap = Returns-trap

    stored :
        (o : Option Contract)
        → Returns {E = ContractError} (Keeps s) (elim o [
          | none ↦ trap
          | some c ↦
              store_instance address s
                (method (instance_host env address s) (record c { balances = s.balances }))
        ])
    stored none = Returns-trap
    stored (some c) =
        after (method (instance_host env address s) (record c { balances = s.balances }))

pub set_factory_paused-Keeps :
    (env : FactoryEnv) (paused : Bool) (s : Factory)
    → Returns (Keeps s) (set_factory_paused env paused s)
unfolding set_factory_paused
set_factory_paused-Keeps env paused s = search (returns_rules) depth 40

pub set_creation_paused-Keeps :
    (env : FactoryEnv) (paused : Bool) (s : Factory)
    → Returns (Keeps s) (set_creation_paused env paused s)
unfolding set_creation_paused
set_creation_paused-Keeps env paused s = search (returns_rules) depth 40

pub set_emergency_pause-Keeps :
    (env : FactoryEnv) (paused : Bool) (s : Factory)
    → Returns (Keeps s) (set_emergency_pause env paused s)
unfolding set_emergency_pause
set_emergency_pause-Keeps env paused s = search (returns_rules) depth 40

pub set_creation_delay-Keeps :
    (env : FactoryEnv) (n : ℕ) (s : Factory) → Returns (Keeps s) (set_creation_delay env n s)
unfolding set_creation_delay
set_creation_delay-Keeps env n s = search (returns_rules) depth 40

pub transfer_factory_admin-Keeps :
    (env : FactoryEnv) (a : Address) (s : Factory)
    → Returns (Keeps s) (transfer_factory_admin env a s)
unfolding transfer_factory_admin
transfer_factory_admin-Keeps env a s = search (returns_rules) depth 40

pub track_participant-Keeps :
    (env : FactoryEnv) (a : Address) (s : Factory) → Returns (Keeps s) (track_participant env a s)
unfolding track_participant
track_participant-Keeps env a s = search (returns_rules) depth 40

pub accept_factory_admin-Keeps :
    (env : FactoryEnv) (s : Factory) → Returns (Keeps s) (accept_factory_admin env s)
unfolding accept_factory_admin
accept_factory_admin-Keeps env s = search (returns_rules) depth 40

pub set_whitelist_status-Keeps :
    (env : FactoryEnv) (a : Address) (b : Bool) (s : Factory)
    → Returns (Keeps s) (set_whitelist_status env a b s)
unfolding set_whitelist_status
set_whitelist_status-Keeps env a b s = search (returns_rules) depth 40

pub set_verified-Keeps :
    (env : FactoryEnv) (a : Address) (b : Bool) (s : Factory)
    → Returns (Keeps s) (set_verified env a b s)
unfolding set_verified
set_verified-Keeps env a b s = search (returns_rules) depth 40

pub rescue_tokens-Keeps :
    (env : FactoryEnv) (a b : Address) (n : ℤ) (s : Factory)
    → Returns (Keeps s) (rescue_tokens env a b n s)
unfolding rescue_tokens
rescue_tokens-Keeps env a b n s = search (returns_rules) depth 40

pub record_volume-Keeps :
    (env : FactoryEnv) (a : Address) (n : ℤ) (s : Factory)
    → Returns (Keeps s) (record_volume env a n s)
unfolding record_volume
record_volume-Keeps env a n s = search (returns_rules) depth 40

pub record_leaderboard_entry-Keeps :
    (env : FactoryEnv) (a : Address) (m n p : ℤ) (s : Factory)
    → Returns (Keeps s) (record_leaderboard_entry env a m n p s)
unfolding record_leaderboard_entry
record_leaderboard_entry-Keeps env a m n p s = search (returns_rules) depth 40

pub set_profile_name-Keeps :
    (env : FactoryEnv) (a : Address) (name : Bytes) (s : Factory)
    → Returns (Keeps s) (set_profile_name env a name s)
unfolding set_profile_name
set_profile_name-Keeps env a name s = search (returns_rules) depth 40

pub cancel_recurring_raffle-KeepsBooks :
    (env : FactoryEnv) (id : ℕ) (a : Address) (s : Factory)
    → Returns (KeepsBooks s) (cancel_recurring_raffle env id a s)
unfolding cancel_recurring_raffle
cancel_recurring_raffle-KeepsBooks env id a s = search (returns_rules) depth 40

pub sync_admin-Keeps :
    (env : FactoryEnv) (a : Address) (s : Factory) → Returns (Keeps s) (sync_admin env a s)
unfolding sync_admin
sync_admin-Keeps env a s = search returns_rules depth 40

pub set_instance_paused-Keeps :
    (env : FactoryEnv) (a : Address) (b : Bool) (s : Factory)
    → Returns (Keeps s) (set_instance_paused env a b s)
unfolding set_instance_paused
set_instance_paused-Keeps env a b s = search (invoke_contract-Keeps, returns_rules) depth 40
