-- ===== src/Factory/Calls.antt =====
-- The calls of contracts/raffle-factory/src/lib.rs that change state, and the states that sequences of
-- calls reach, to the factory and to the raffles that it has deployed. `upgrade` replaces the code and
-- changes no entry.
pub mod Writes
pub mod Authority
pub mod Ids
pub mod Listing
pub mod Creation
pub mod Frame
pub mod Registered
pub mod Rounds
pub mod Settings
pub mod Timelock
use tikka_contracts.Prelude.{ℕ, ◌≤◌, Bool, false, none, some, List, [], ◌≡◌}
use tikka_contracts.Prelude.Int.{ℤ, pos}
use tikka_contracts.Prelude.Outcome.{Outcome, ok, ◌>>=◌}
use tikka_contracts.Shared.Types.{Address, Bytes, RaffleConfig}
use tikka_contracts.Instance.State.{Contract, Env, Balances, update}
use tikka_contracts.Instance.Calls.{Request, perform}
use tikka_contracts.Factory.State.{
  Factory, FactoryEnv, FactoryCall, ConfigKey, RecurringRaffleConfig,
}
use tikka_contracts.Factory.Roles.{
  init_factory, set_factory_paused, set_creation_paused, set_creation_delay, set_emergency_pause,
  transfer_factory_admin, accept_factory_admin, instance_host, sync_admin, set_instance_paused,
  rescue_tokens,
}
use tikka_contracts.Factory.Config.{
  set_config, propose_fee_change, propose_wasm_upgrade, execute_config_change, cancel_config_change,
}
use tikka_contracts.Factory.Registry.{create_raffle, clean_old_raffle}
use tikka_contracts.Factory.Recurring.{
  create_recurring_raffle, trigger_next_round, cancel_recurring_raffle,
}
use tikka_contracts.Factory.Tracking.{
  record_volume, track_participant, record_leaderboard_entry, set_whitelist_status,
  set_profile_name, set_verified,
}

pub data FactoryRequest : Type 0 where
  on_init_factory : Address → Bytes → ℕ → Address → FactoryRequest
  on_set_factory_paused on_set_creation_paused on_set_emergency_pause : Bool → FactoryRequest
  on_set_creation_delay : ℕ → FactoryRequest
  on_transfer_factory_admin on_sync_admin on_track_participant : Address → FactoryRequest
  on_accept_factory_admin : FactoryRequest
  on_set_instance_paused on_set_whitelist_status on_set_verified : Address → Bool → FactoryRequest
  on_rescue_tokens : Address → Address → ℤ → FactoryRequest
  on_set_config : ConfigKey → Address → FactoryRequest
  on_propose_fee_change on_execute_config_change on_cancel_config_change : ℕ → FactoryRequest
  on_propose_wasm_upgrade : Bytes → FactoryRequest
  on_create_raffle : Address → RaffleConfig → FactoryRequest
  on_clean_old_raffle on_trigger_next_round : ℕ → FactoryRequest
  on_create_recurring_raffle : Address → RecurringRaffleConfig → FactoryRequest
  on_cancel_recurring_raffle : ℕ → Address → FactoryRequest
  on_record_volume : Address → ℤ → FactoryRequest
  on_record_leaderboard_entry : Address → ℤ → ℤ → ℤ → FactoryRequest
  on_set_profile_name : Address → Bytes → FactoryRequest

unfoldable pub factory_of : {A : Type 0} → FactoryCall (A × Factory) → FactoryCall Factory
unfolding ◌>>=◌
factory_of m = m >>= λ r. ok r.1

unfoldable pub factory_perform : FactoryEnv → FactoryRequest → Factory → FactoryCall Factory
unfolding factory_of init_factory set_factory_paused set_creation_paused set_emergency_pause
    set_creation_delay transfer_factory_admin sync_admin track_participant accept_factory_admin
    set_instance_paused set_whitelist_status set_verified rescue_tokens set_config
    propose_fee_change execute_config_change cancel_config_change propose_wasm_upgrade create_raffle
    clean_old_raffle trigger_next_round create_recurring_raffle cancel_recurring_raffle
    record_volume record_leaderboard_entry set_profile_name
factory_perform env (on_init_factory admin wasm_hash fee treasury) s =
    init_factory env admin wasm_hash fee treasury s
factory_perform env (on_set_factory_paused paused) s = set_factory_paused env paused s
factory_perform env (on_set_creation_paused paused) s = set_creation_paused env paused s
factory_perform env (on_set_emergency_pause paused) s = set_emergency_pause env paused s
factory_perform env (on_set_creation_delay delay) s = set_creation_delay env delay s
factory_perform env (on_transfer_factory_admin new_admin) s = transfer_factory_admin env new_admin s
factory_perform env (on_sync_admin instance_address) s = sync_admin env instance_address s
factory_perform env (on_track_participant participant) s = track_participant env participant s
factory_perform env on_accept_factory_admin s = accept_factory_admin env s
factory_perform env (on_set_instance_paused address paused) s =
    set_instance_paused env address paused s
factory_perform env (on_set_whitelist_status partner status) s =
    set_whitelist_status env partner status s
factory_perform env (on_set_verified creator verified) s = set_verified env creator verified s
factory_perform env (on_rescue_tokens token to amount) s = rescue_tokens env token to amount s
factory_perform env (on_set_config key address) s = factory_of (set_config env key address s)
factory_perform env (on_propose_fee_change fee) s = factory_of (propose_fee_change env fee s)
factory_perform env (on_execute_config_change op_id) s = execute_config_change env op_id s
factory_perform env (on_cancel_config_change op_id) s = cancel_config_change env op_id s
factory_perform env (on_propose_wasm_upgrade hash) s = factory_of (propose_wasm_upgrade env hash s)
factory_perform env (on_create_raffle creator config) s =
    factory_of (create_raffle env creator config s)
factory_perform env (on_clean_old_raffle raffle_id) s = clean_old_raffle env raffle_id s
factory_perform env (on_trigger_next_round id) s = factory_of (trigger_next_round env id s)
factory_perform env (on_create_recurring_raffle creator config) s =
    factory_of (create_recurring_raffle env creator config s)
factory_perform env (on_cancel_recurring_raffle id caller) s =
    cancel_recurring_raffle env id caller s
factory_perform env (on_record_volume asset amount) s = record_volume env asset amount s
factory_perform env (on_record_leaderboard_entry raffle tickets prize volume) s =
    record_leaderboard_entry env raffle tickets prize volume s
factory_perform env (on_set_profile_name creator name) s = set_profile_name env creator name s

-- A factory that has just been deployed. The creation delay is 300 seconds where none is set.
unfoldable pub empty_factory : Balances → Factory
empty_factory balances = record {
  initialized = false;
  admin = none;
  raffle_by_id = λ i. none;
  next_raffle_id = 0;
  raffle_count = 0;
  instance_wasm_hash = none;
  protocol_fee_bp = 0;
  treasury = none;
  paused = false;
  pending_admin = none;
  pending_op = λ i. none;
  op_counter = 0;
  checkpoint = λ i. none;
  latest_checkpoint_index = 0;
  total_raffles_created = 0;
  unique_participant = λ a. false;
  total_unique_participants = 0;
  min_creation_delay = 300;
  last_creation_time = λ a. 0;
  total_volume_per_asset = λ a. pos 0;
  creator_raffles = λ a. [];
  category_raffles = λ c. [];
  recurring_raffle = λ i. none;
  next_recurring_id = 0;
  recurring_raffle_instances = λ i. [];
  creation_paused = false;
  valid_raffle = λ a. false;
  is_factory_raffle = λ a. false;
  approved_oracle = λ a. false;
  whitelisted_partner = λ a. false;
  partners_list = [];
  partner_stats = λ a. none;
  top_by_tickets = [];
  top_by_prize = [];
  top_by_volume = [];
  global_emergency_pause = false;
  raffle_creator = λ i. none;
  raffle_category = λ i. none;
  creator_profile = λ a. none;
  instances = λ a. none;
  balances = balances;
}

-- The states after calls in any order, to the factory and to any raffle it has deployed, with token
-- transfers in between.
pub data FactoryReachable : Factory → Type 0 where
  factory_deployed : (balances : Balances) → FactoryReachable (empty_factory balances)
  factory_called :
      {s t : Factory} (env : FactoryEnv) (request : FactoryRequest)
      → FactoryReachable s
      → factory_perform env request s ≡ ok t
      → FactoryReachable t
  raffle_called :
      {s : Factory} (env : FactoryEnv) (address : Address) (c after : Contract) (request : Request)
      → FactoryReachable s
      → s.instances address ≡ some c
      → perform (instance_host env address s) request (record c { balances = s.balances })
        ≡ ok after
      → FactoryReachable (record s {
        instances = update s.instances address (some after);
        balances = after.balances;
      })
  moved_elsewhere :
      {s : Factory} (balances : Balances)
      → FactoryReachable s
      → FactoryReachable (record s { balances = balances })

-- The states after calls from `s` on, none of them before the time `since`.
pub data FactoryRun (since : ℕ) (s : Factory) : Factory → Type 0 where
  run_start : FactoryRun since s s
  run_call :
      {t u : Factory} (env : FactoryEnv) (request : FactoryRequest)
      → FactoryRun since s t
      → since ≤ env.host.timestamp
      → factory_perform env request t ≡ ok u
      → FactoryRun since s u
  run_raffle_call :
      {t : Factory} (address : Address) (after : Contract)
      → FactoryRun since s t
      → FactoryRun since s (record t {
        instances = update t.instances address (some after);
        balances = after.balances;
      })
  run_moved :
      {t : Factory} (balances : Balances)
      → FactoryRun since s t
      → FactoryRun since s (record t { balances = balances })
