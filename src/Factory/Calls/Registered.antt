-- ===== src/Factory/Calls/Registered.antt =====
-- The register of raffles in every state that the calls reach.
use tikka_contracts.Prelude.{ℕ, ◌≡◌, ◌≢◌, refl, none, some, arith}
use tikka_contracts.Prelude.Outcome.{
  ok, Returns, Returns-bind, Returns-ok, Returns-then, ok_or-eq-ok,
}
use tikka_contracts.Instance.State.{update}
use tikka_contracts.Factory.State.{Factory, FactoryEnv, FactoryCall}
use tikka_contracts.Factory.Registry.{clean_old_raffle}
use tikka_contracts.Factory.Calls.{
  FactoryRequest, on_accept_factory_admin, on_cancel_config_change, on_cancel_recurring_raffle,
  on_clean_old_raffle, on_create_raffle, on_create_recurring_raffle, on_execute_config_change,
  on_init_factory, on_propose_fee_change, on_propose_wasm_upgrade, on_record_leaderboard_entry,
  on_record_volume, on_rescue_tokens, on_set_config, on_set_creation_delay, on_set_creation_paused,
  on_set_emergency_pause, on_set_factory_paused, on_set_instance_paused, on_set_profile_name,
  on_set_verified, on_set_whitelist_status, on_sync_admin, on_track_participant,
  on_transfer_factory_admin, on_trigger_next_round, factory_of, factory_perform, FactoryReachable,
  factory_deployed, factory_called, raffle_called, moved_elsewhere, empty_factory,
}
use tikka_contracts.Factory.Calls.Frame.{
  register_of, update-Grows, Keeps, KeepsRegister, KeepsBooks, set_factory_paused-Keeps,
  set_creation_paused-Keeps, set_emergency_pause-Keeps, set_creation_delay-Keeps,
  transfer_factory_admin-Keeps, track_participant-Keeps, accept_factory_admin-Keeps,
  set_whitelist_status-Keeps, set_verified-Keeps, rescue_tokens-Keeps, record_volume-Keeps,
  record_leaderboard_entry-Keeps, set_profile_name-Keeps, cancel_recurring_raffle-KeepsBooks,
  sync_admin-Keeps, set_instance_paused-Keeps,
}
use tikka_contracts.Factory.Calls.Frame.Config.{
  init_factory-KeepsRegister, set_config-KeepsRegister, propose_fee_change-KeepsRegister,
  propose_wasm_upgrade-KeepsRegister, cancel_config_change-KeepsRegister,
  create_recurring_raffle-KeepsBooks, execute_config_change-KeepsRegister,
}
use tikka_contracts.Factory.Calls.Creation.{create_raffle-Registers, trigger_next_round-Registers}
use tikka_contracts.Factory.Calls.Writes.{Registers}
use tikka_contracts.Factory.Calls.Ids.{
  IsRegistered, IsRegister-Grows, same-IsRegistered, Registers-IsRegistered,
}

clean_old_raffle-eq :
    (env : FactoryEnv) (id : ℕ) (s t : Factory)
    → s.raffle_creator id ≡ none
    → clean_old_raffle env id s ≢ ok t
unfolding clean_old_raffle
clean_old_raffle-eq env id s t h e = (never.at e).0
  where
    never : Returns {A = Factory} (λ t. ⊥ × Unit {0}) (clean_old_raffle env id s)
    never = Returns-bind _ _ (λ admin e.
        Returns-bind _ _ (λ address e. Returns-bind _ _ (λ creator e. cc (h, ok_or-eq-ok _ _ e))))

module _ {s : Factory} (p : IsRegistered s) where
  kept : {m : FactoryCall Factory} → Returns (Keeps s) m → Returns IsRegistered m
  kept h = record { at = λ {a = t} e. same-IsRegistered s t (h.at e).register (h.at e).grows p }

  kept_register : {m : FactoryCall Factory} → Returns (KeepsRegister s) m → Returns IsRegistered m
  kept_register h = record {
    at = λ {a = t} e. same-IsRegistered s t (h.at e).register (h.at e).grows p;
  }

  kept_books : {m : FactoryCall Factory} → Returns (KeepsBooks s) m → Returns IsRegistered m
  kept_books h = record {
    at = λ {a = t} e. same-IsRegistered s t (h.at e).register (h.at e).grows p;
  }

  kept_books_state :
      {A : Type 0} {m : FactoryCall (A × Factory)}
      → Returns (λ r. KeepsBooks s r.1) m
      → Returns IsRegistered (factory_of m)
  unfolding factory_of
  kept_books_state h =
      Returns-then _ h (λ r k. Returns-ok r.1 (same-IsRegistered s r.1 k.register k.grows p))

  kept_state :
      {A : Type 0} {m : FactoryCall (A × Factory)}
      → Returns (λ r. KeepsRegister s r.1) m
      → Returns IsRegistered (factory_of m)
  unfolding factory_of
  kept_state h =
      Returns-then _ h (λ r k. Returns-ok r.1 (same-IsRegistered s r.1 k.register k.grows p))

  made_state :
      {A : Type 0} {m : FactoryCall (A × Factory)}
      → Returns (λ r. Registers s r.1) m
      → Returns IsRegistered (factory_of m)
  unfolding factory_of
  made_state h = Returns-then _ h (λ r k. Returns-ok r.1 (Registers-IsRegistered s r.1 k p))

factory_perform-IsRegistered :
    (env : FactoryEnv) (request : FactoryRequest) (s : Factory)
    → IsRegistered s
    → Returns IsRegistered (factory_perform env request s)
unfolding factory_perform
factory_perform-IsRegistered env (on_init_factory a w f t) s p =
    kept_register p (init_factory-KeepsRegister env a w f t s)
factory_perform-IsRegistered env (on_set_factory_paused b) s p =
    kept p (set_factory_paused-Keeps env b s)
factory_perform-IsRegistered env (on_set_creation_paused b) s p =
    kept p (set_creation_paused-Keeps env b s)
factory_perform-IsRegistered env (on_set_emergency_pause b) s p =
    kept p (set_emergency_pause-Keeps env b s)
factory_perform-IsRegistered env (on_set_creation_delay n) s p =
    kept p (set_creation_delay-Keeps env n s)
factory_perform-IsRegistered env (on_transfer_factory_admin a) s p =
    kept p (transfer_factory_admin-Keeps env a s)
factory_perform-IsRegistered env (on_sync_admin a) s p = kept p (sync_admin-Keeps env a s)
factory_perform-IsRegistered env (on_track_participant a) s p =
    kept p (track_participant-Keeps env a s)
factory_perform-IsRegistered env on_accept_factory_admin s p =
    kept p (accept_factory_admin-Keeps env s)
factory_perform-IsRegistered env (on_set_instance_paused a b) s p =
    kept p (set_instance_paused-Keeps env a b s)
factory_perform-IsRegistered env (on_set_whitelist_status a b) s p =
    kept p (set_whitelist_status-Keeps env a b s)
factory_perform-IsRegistered env (on_set_verified a b) s p = kept p (set_verified-Keeps env a b s)
factory_perform-IsRegistered env (on_rescue_tokens a b n) s p =
    kept p (rescue_tokens-Keeps env a b n s)
factory_perform-IsRegistered env (on_set_config k a) s p =
    kept_state p (set_config-KeepsRegister env k a s)
factory_perform-IsRegistered env (on_propose_fee_change n) s p =
    kept_state p (propose_fee_change-KeepsRegister env n s)
factory_perform-IsRegistered env (on_execute_config_change n) s p =
    kept_register p (execute_config_change-KeepsRegister env n s)
factory_perform-IsRegistered env (on_cancel_config_change n) s p =
    kept_register p (cancel_config_change-KeepsRegister env n s)
factory_perform-IsRegistered env (on_propose_wasm_upgrade w) s p =
    kept_state p (propose_wasm_upgrade-KeepsRegister env w s)
factory_perform-IsRegistered env (on_create_raffle a c) s p =
    made_state p (create_raffle-Registers env a c s)
factory_perform-IsRegistered env (on_clean_old_raffle n) s p = record {
  at = λ {a = t} e. absurd (clean_old_raffle-eq env n s t (p.no_creators n) e);
}
factory_perform-IsRegistered env (on_trigger_next_round n) s p =
    made_state p (trigger_next_round-Registers env n s)
factory_perform-IsRegistered env (on_create_recurring_raffle a c) s p =
    kept_books_state p (create_recurring_raffle-KeepsBooks env a c s)
factory_perform-IsRegistered env (on_cancel_recurring_raffle n a) s p =
    kept_books p (cancel_recurring_raffle-KeepsBooks env n a s)
factory_perform-IsRegistered env (on_record_volume a n) s p = kept p (record_volume-Keeps env a n s)
factory_perform-IsRegistered env (on_record_leaderboard_entry a m n q) s p =
    kept p (record_leaderboard_entry-Keeps env a m n q s)
factory_perform-IsRegistered env (on_set_profile_name a w) s p =
    kept p (set_profile_name-Keeps env a w s)

-- After any calls, to the factory and to its raffles: the next id and the two counters are equal and
-- below 2 ^ 32, each id below names a deployed raffle, no two ids the same one, no id from there on names
-- one, and no id has a recorded creator.
pub FactoryReachable-IsRegistered : {s : Factory} → FactoryReachable s → IsRegistered s
unfolding empty_factory
FactoryReachable-IsRegistered (factory_deployed balances) = record {
  next_is_created = refl;
  live_is_created = refl;
  fits = omega arith;
  below = λ i h. absurd (omega arith);
  above = λ i h. refl;
  stored = λ i a e. cc;
  injective = λ i j a e k. cc;
  no_creators = λ i. refl;
}
FactoryReachable-IsRegistered (factory_called {s} env request h e) =
    (factory_perform-IsRegistered env request s (FactoryReachable-IsRegistered h)).at e
FactoryReachable-IsRegistered (raffle_called {s} env address c after request h e f) =
    IsRegister-Grows (register_of s) s.instances (update s.instances address (some after))
      (update-Grows s.instances address after) (FactoryReachable-IsRegistered h)
FactoryReachable-IsRegistered (moved_elsewhere balances h) = FactoryReachable-IsRegistered h

-- In no state that the calls reach does a call of `clean_old_raffle` succeed: it reads the creator of the
-- raffle, which no call records.
pub clean_never_succeeds :
    {s : Factory} (env : FactoryEnv) (raffle_id : ℕ)
    → FactoryReachable s
    → (t : Factory) → clean_old_raffle env raffle_id s ≢ ok t
clean_never_succeeds {s} env raffle_id h t =
    clean_old_raffle-eq env raffle_id s t ((FactoryReachable-IsRegistered h).no_creators raffle_id)
