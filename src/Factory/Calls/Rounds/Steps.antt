-- ===== src/Factory/Calls/Rounds/Steps.antt =====
-- The steps of the recurring raffles over all calls.
use tikka_contracts.Prelude.{ℕ, ◌≡◌}
use tikka_contracts.Prelude.Outcome.{Returns, Returns-bind, Returns-ok, Returns-then}
use tikka_contracts.Factory.State.{Factory, FactoryEnv, FactoryCall}
use tikka_contracts.Factory.Registry.{clean_old_raffle}
use tikka_contracts.Factory.Calls.{
  FactoryRequest, on_accept_factory_admin, on_cancel_config_change, on_cancel_recurring_raffle,
  on_clean_old_raffle, on_create_raffle, on_create_recurring_raffle, on_execute_config_change,
  on_init_factory, on_propose_fee_change, on_propose_wasm_upgrade, on_record_leaderboard_entry,
  on_record_volume, on_rescue_tokens, on_set_config, on_set_creation_delay, on_set_creation_paused,
  on_set_emergency_pause, on_set_factory_paused, on_set_instance_paused, on_set_profile_name,
  on_set_verified, on_set_whitelist_status, on_sync_admin, on_track_participant,
  on_transfer_factory_admin, on_trigger_next_round, factory_of, factory_perform,
}
use tikka_contracts.Factory.Calls.Frame.{
  Keeps, invoke_contract-Keeps, set_factory_paused-Keeps, set_creation_paused-Keeps,
  set_emergency_pause-Keeps, set_creation_delay-Keeps, transfer_factory_admin-Keeps,
  track_participant-Keeps, accept_factory_admin-Keeps, set_whitelist_status-Keeps,
  set_verified-Keeps, rescue_tokens-Keeps, record_volume-Keeps, record_leaderboard_entry-Keeps,
  set_profile_name-Keeps, sync_admin-Keeps, set_instance_paused-Keeps,
}
use tikka_contracts.Instance.Admin.Tokens.{wipe_storage}
use tikka_contracts.Factory.Calls.Creation.{create_raffle-rounds}
use tikka_contracts.Factory.Calls.Frame.{rounds_of, KeepsRegister}
use tikka_contracts.Factory.Calls.Frame.Config.{
  set_config-KeepsRegister, propose_fee_change-KeepsRegister, propose_wasm_upgrade-KeepsRegister,
  execute_config_change-KeepsRegister, cancel_config_change-KeepsRegister,
  init_factory-KeepsRegister,
}
use tikka_contracts.Factory.Calls.Rounds.{
  RoundsStep, same-RoundsStep, create_recurring_raffle-RoundsStep,
  cancel_recurring_raffle-RoundsStep, trigger_next_round-RoundsStep,
}

module _ (env : FactoryEnv) (s : Factory) where
  abbrev Stepping : Factory → Type 0
  Stepping t = RoundsStep env (rounds_of s) (rounds_of t)

  kept : {m : FactoryCall Factory} → Returns (Keeps s) m → Returns Stepping m
  kept h = record {
    at = λ {a = t} e. same-RoundsStep env (rounds_of s) (rounds_of t) (h.at e).rounds;
  }

  kept_register : {m : FactoryCall Factory} → Returns (KeepsRegister s) m → Returns Stepping m
  kept_register h = record {
    at = λ {a = t} e. same-RoundsStep env (rounds_of s) (rounds_of t) (h.at e).rounds;
  }

  kept_state :
      {A : Type 0} {m : FactoryCall (A × Factory)}
      → Returns (λ r. KeepsRegister s r.1) m
      → Returns Stepping (factory_of m)
  unfolding factory_of
  kept_state h =
      Returns-then _ h
        (λ r k. Returns-ok r.1 (same-RoundsStep env (rounds_of s) (rounds_of r.1) k.rounds))

  raffle_state :
      {A : Type 0} {m : FactoryCall (A × Factory)}
      → Returns (λ r. rounds_of r.1 ≡ rounds_of s) m
      → Returns Stepping (factory_of m)
  unfolding factory_of
  raffle_state h =
      Returns-then _ h (λ r k. Returns-ok r.1 (same-RoundsStep env (rounds_of s) (rounds_of r.1) k))

  stepped_state :
      {A : Type 0} {m : FactoryCall (A × Factory)}
      → Returns (λ r. Stepping r.1) m
      → Returns Stepping (factory_of m)
  unfolding factory_of
  stepped_state h = Returns-then _ h (λ r k. Returns-ok r.1 k)

clean_old_raffle-RoundsStep :
    (env : FactoryEnv) (id : ℕ) (s : Factory) → Returns (Stepping env s) (clean_old_raffle env id s)
unfolding clean_old_raffle
clean_old_raffle-RoundsStep env id s = Returns-bind _ _ (λ admin e. Returns-bind _ _ (λ address e.
    Returns-bind _ _ (λ creator e.
      Returns-then _ (invoke_contract-Keeps env address wipe_storage s)
        (λ t k. Returns-ok _ (same-RoundsStep env (rounds_of s) (rounds_of t) k.rounds)))))

pub factory_perform-RoundsStep :
    (env : FactoryEnv) (request : FactoryRequest) (s : Factory)
    → Returns (Stepping env s) (factory_perform env request s)
unfolding factory_perform
factory_perform-RoundsStep env (on_init_factory a w f t) s =
    kept_register env s (init_factory-KeepsRegister env a w f t s)
factory_perform-RoundsStep env (on_set_factory_paused b) s =
    kept env s (set_factory_paused-Keeps env b s)
factory_perform-RoundsStep env (on_set_creation_paused b) s =
    kept env s (set_creation_paused-Keeps env b s)
factory_perform-RoundsStep env (on_set_emergency_pause b) s =
    kept env s (set_emergency_pause-Keeps env b s)
factory_perform-RoundsStep env (on_set_creation_delay n) s =
    kept env s (set_creation_delay-Keeps env n s)
factory_perform-RoundsStep env (on_transfer_factory_admin a) s =
    kept env s (transfer_factory_admin-Keeps env a s)
factory_perform-RoundsStep env (on_sync_admin a) s = kept env s (sync_admin-Keeps env a s)
factory_perform-RoundsStep env (on_track_participant a) s =
    kept env s (track_participant-Keeps env a s)
factory_perform-RoundsStep env on_accept_factory_admin s =
    kept env s (accept_factory_admin-Keeps env s)
factory_perform-RoundsStep env (on_set_instance_paused a b) s =
    kept env s (set_instance_paused-Keeps env a b s)
factory_perform-RoundsStep env (on_set_whitelist_status a b) s =
    kept env s (set_whitelist_status-Keeps env a b s)
factory_perform-RoundsStep env (on_set_verified a b) s = kept env s (set_verified-Keeps env a b s)
factory_perform-RoundsStep env (on_rescue_tokens a b n) s =
    kept env s (rescue_tokens-Keeps env a b n s)
factory_perform-RoundsStep env (on_set_config k a) s =
    kept_state env s (set_config-KeepsRegister env k a s)
factory_perform-RoundsStep env (on_propose_fee_change n) s =
    kept_state env s (propose_fee_change-KeepsRegister env n s)
factory_perform-RoundsStep env (on_execute_config_change n) s =
    kept_register env s (execute_config_change-KeepsRegister env n s)
factory_perform-RoundsStep env (on_cancel_config_change n) s =
    kept_register env s (cancel_config_change-KeepsRegister env n s)
factory_perform-RoundsStep env (on_propose_wasm_upgrade w) s =
    kept_state env s (propose_wasm_upgrade-KeepsRegister env w s)
factory_perform-RoundsStep env (on_create_raffle a c) s =
    raffle_state env s (create_raffle-rounds env a c s)
factory_perform-RoundsStep env (on_clean_old_raffle n) s = clean_old_raffle-RoundsStep env n s
factory_perform-RoundsStep env (on_trigger_next_round n) s =
    stepped_state env s (trigger_next_round-RoundsStep env n s)
factory_perform-RoundsStep env (on_create_recurring_raffle a c) s =
    stepped_state env s (create_recurring_raffle-RoundsStep env a c s)
factory_perform-RoundsStep env (on_cancel_recurring_raffle n a) s =
    cancel_recurring_raffle-RoundsStep env n a s
factory_perform-RoundsStep env (on_record_volume a n) s = kept env s (record_volume-Keeps env a n s)
factory_perform-RoundsStep env (on_record_leaderboard_entry a m n q) s =
    kept env s (record_leaderboard_entry-Keeps env a m n q s)
factory_perform-RoundsStep env (on_set_profile_name a w) s =
    kept env s (set_profile_name-Keeps env a w s)
