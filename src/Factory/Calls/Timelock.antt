-- ===== src/Factory/Calls/Timelock.antt =====
-- The timelock of the configuration over sequences of calls.
pub mod Delay
pub mod Final
use mathlib.Core.Path.{subst}
use tikka_contracts.Prelude.{
  ℕ, ◌+◌, ◌-◌, ◌<◌, ◌≤◌, ◌^◌, min, true, false, ◌≡◌, ◌≢◌, refl, sym, ap, ◌∙◌, ◌⊎◌, inl, inr, Option,
  none, some, arith, ltb,
}
use tikka_contracts.Prelude.Outcome.{
  Outcome, ok, ◌>>=◌, err, Returns, Returns-bind, Returns-ok, Returns-then, Returns-err,
  ok_or-eq-ok, reject_if-eq-ok, returns_rules,
}
use tikka_contracts.Shared.Types.{Address, Bytes}
use tikka_contracts.Shared.Constants.{max_protocol_fee_bp, timelock_delay_seconds}
use tikka_contracts.Instance.State.{update}
use tikka_contracts.Instance.Helpers.{saturating_add_u32}
use tikka_contracts.Factory.State.{Factory, FactoryEnv, FactoryCall, PendingOp, AdminOp, ConfigKey}
use tikka_contracts.Factory.Registry.{clean_old_raffle}
use tikka_contracts.Factory.Config.{
  queue_op, set_config, propose_fee_change, propose_wasm_upgrade, execute_config_change,
  cancel_config_change,
}
use tikka_contracts.Factory.Calls.{
  FactoryRequest, on_accept_factory_admin, on_cancel_config_change, on_cancel_recurring_raffle,
  on_clean_old_raffle, on_create_raffle, on_create_recurring_raffle, on_execute_config_change,
  on_init_factory, on_propose_fee_change, on_propose_wasm_upgrade, on_record_leaderboard_entry,
  on_record_volume, on_rescue_tokens, on_set_config, on_set_creation_delay, on_set_creation_paused,
  on_set_emergency_pause, on_set_factory_paused, on_set_instance_paused, on_set_profile_name,
  on_set_verified, on_set_whitelist_status, on_sync_admin, on_track_participant,
  on_transfer_factory_admin, on_trigger_next_round, factory_of, factory_perform, empty_factory,
  FactoryReachable, factory_deployed, factory_called, raffle_called, moved_elsewhere, FactoryRun,
  run_start, run_call, run_raffle_call, run_moved,
}
use tikka_contracts.Factory.Calls.Frame.{
  Settings, settings_of, Keeps, KeepsBooks, invoke_contract-Keeps, set_factory_paused-Keeps,
  set_creation_paused-Keeps, set_emergency_pause-Keeps, set_creation_delay-Keeps,
  transfer_factory_admin-Keeps, track_participant-Keeps, accept_factory_admin-Keeps,
  set_whitelist_status-Keeps, set_verified-Keeps, rescue_tokens-Keeps, record_volume-Keeps,
  record_leaderboard_entry-Keeps, set_profile_name-Keeps, cancel_recurring_raffle-KeepsBooks,
  sync_admin-Keeps, set_instance_paused-Keeps,
}
use tikka_contracts.Factory.Calls.Frame.Config.{create_recurring_raffle-KeepsBooks}
use tikka_contracts.Factory.Calls.Creation.{create_raffle-Registers, trigger_next_round-Registers}
use tikka_contracts.Factory.Calls.Writes.{Registers}
use tikka_contracts.Factory.Calls.Settings.{
  Tends, Tending, Keeps-Tends, update-none-eq, or_trap-checked_u64, set_config-Tends,
  propose_fee_change-Tends, propose_wasm_upgrade-Tends, cancel_config_change-Tends,
  execute_config_change-Tends, init_factory-Tends,
}
use tikka_contracts.Factory.Roles.{invoke_contract}
use tikka_contracts.Instance.Admin.Tokens.{wipe_storage}

module _ (env : FactoryEnv) (s : Factory) where
  kept : {m : FactoryCall Factory} → Returns (Keeps s) m → Returns (Tending env s) m
  kept h = record {
    at = λ {a = t} e.
        Keeps-Tends env.host.timestamp (settings_of s) (settings_of t) (h.at e).settings;
  }

  kept_books : {m : FactoryCall Factory} → Returns (KeepsBooks s) m → Returns (Tending env s) m
  kept_books h = record {
    at = λ {a = t} e.
        Keeps-Tends env.host.timestamp (settings_of s) (settings_of t) (h.at e).settings;
  }

  kept_state :
      {A : Type 0} {m : FactoryCall (A × Factory)}
      → Returns (λ r. KeepsBooks s r.1) m
      → Returns (Tending env s) (factory_of m)
  unfolding factory_of
  kept_state h = Returns-then _ h (λ r k.
      Returns-ok r.1 (Keeps-Tends env.host.timestamp (settings_of s) (settings_of r.1) k.settings))

  made_state :
      {A : Type 0} {m : FactoryCall (A × Factory)}
      → Returns (λ r. Registers s r.1) m
      → Returns (Tending env s) (factory_of m)
  unfolding factory_of
  made_state h = Returns-then _ h (λ r k.
      Returns-ok r.1 (Keeps-Tends env.host.timestamp (settings_of s) (settings_of r.1) k.settings))

  tended_state :
      {A : Type 0} (m : FactoryCall (A × Factory))
      → Returns (λ r. Tending env s r.1) m
      → Returns (Tending env s) (factory_of m)
  unfolding factory_of
  tended_state m h = Returns-then _ h (λ r k. Returns-ok r.1 k)

clean_old_raffle-Tends :
    (env : FactoryEnv) (id : ℕ) (s : Factory) → Returns (Tending env s) (clean_old_raffle env id s)
unfolding clean_old_raffle
clean_old_raffle-Tends env id s = Returns-bind _ _ (λ admin e. Returns-bind _ _ (λ address e.
    Returns-bind _ _ (λ creator e.
      Returns-then _ (invoke_contract-Keeps env address wipe_storage s) (λ t k.
        Returns-ok _ (Keeps-Tends env.host.timestamp (settings_of s) (settings_of t) k.settings)))))

pub factory_perform-Tends :
    (env : FactoryEnv) (request : FactoryRequest) (s : Factory)
    → Returns (Tending env s) (factory_perform env request s)
unfolding factory_perform
factory_perform-Tends env (on_init_factory a w f t) s = init_factory-Tends env a w f t s
factory_perform-Tends env (on_set_factory_paused b) s =
    kept env s (set_factory_paused-Keeps env b s)
factory_perform-Tends env (on_set_creation_paused b) s =
    kept env s (set_creation_paused-Keeps env b s)
factory_perform-Tends env (on_set_emergency_pause b) s =
    kept env s (set_emergency_pause-Keeps env b s)
factory_perform-Tends env (on_set_creation_delay n) s =
    kept env s (set_creation_delay-Keeps env n s)
factory_perform-Tends env (on_transfer_factory_admin a) s =
    kept env s (transfer_factory_admin-Keeps env a s)
factory_perform-Tends env (on_sync_admin a) s = kept env s (sync_admin-Keeps env a s)
factory_perform-Tends env (on_track_participant a) s = kept env s (track_participant-Keeps env a s)
factory_perform-Tends env on_accept_factory_admin s = kept env s (accept_factory_admin-Keeps env s)
factory_perform-Tends env (on_set_instance_paused a b) s =
    kept env s (set_instance_paused-Keeps env a b s)
factory_perform-Tends env (on_set_whitelist_status a b) s =
    kept env s (set_whitelist_status-Keeps env a b s)
factory_perform-Tends env (on_set_verified a b) s = kept env s (set_verified-Keeps env a b s)
factory_perform-Tends env (on_rescue_tokens a b n) s = kept env s (rescue_tokens-Keeps env a b n s)
factory_perform-Tends env (on_set_config k a) s = tended_state env s _ (set_config-Tends env k a s)
factory_perform-Tends env (on_propose_fee_change n) s =
    tended_state env s _ (propose_fee_change-Tends env n s)
factory_perform-Tends env (on_execute_config_change n) s = execute_config_change-Tends env n s
factory_perform-Tends env (on_cancel_config_change n) s = cancel_config_change-Tends env n s
factory_perform-Tends env (on_propose_wasm_upgrade w) s =
    tended_state env s _ (propose_wasm_upgrade-Tends env w s)
factory_perform-Tends env (on_create_raffle a c) s =
    made_state env s (create_raffle-Registers env a c s)
factory_perform-Tends env (on_clean_old_raffle n) s = clean_old_raffle-Tends env n s
factory_perform-Tends env (on_trigger_next_round n) s =
    made_state env s (trigger_next_round-Registers env n s)
factory_perform-Tends env (on_create_recurring_raffle a c) s =
    kept_state env s (create_recurring_raffle-KeepsBooks env a c s)
factory_perform-Tends env (on_cancel_recurring_raffle n a) s =
    kept_books env s (cancel_recurring_raffle-KeepsBooks env n a s)
factory_perform-Tends env (on_record_volume a n) s = kept env s (record_volume-Keeps env a n s)
factory_perform-Tends env (on_record_leaderboard_entry a m n q) s =
    kept env s (record_leaderboard_entry-Keeps env a m n q s)
factory_perform-Tends env (on_set_profile_name a w) s =
    kept env s (set_profile_name-Keeps env a w s)

-- After any calls, the protocol fee of the factory is at most 2,000 basis points.
pub fee_capped : {s : Factory} → FactoryReachable s → s.protocol_fee_bp ≤ max_protocol_fee_bp
unfolding empty_factory
fee_capped (factory_deployed balances) = omega arith
fee_capped (factory_called {s} env request h e) =
    ((factory_perform-Tends env request s).at e).fee (fee_capped h)
fee_capped (raffle_called env address c after request h e f) = fee_capped h
fee_capped (moved_elsewhere balances h) = fee_capped h
