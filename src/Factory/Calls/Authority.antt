-- ===== src/Factory/Calls/Authority.antt =====
-- Which calls of the factory are the admin's.
use tikka_contracts.Prelude.{Bool, true, false, ◌≡◌, ◌≢◌, some}
use tikka_contracts.Prelude.Outcome.{
  ok, ◌>>=◌, trap_unless, Returns, Returns-bind, Returns-then, ok_or-eq-ok,
}
use tikka_contracts.Shared.Types.{Address}
use tikka_contracts.Factory.State.{Factory, FactoryEnv, FactoryCall}
use tikka_contracts.Factory.Roles.{
  set_factory_paused, set_creation_paused, set_emergency_pause, set_creation_delay,
  transfer_factory_admin, sync_admin, set_instance_paused, rescue_tokens, require_admin,
}
use tikka_contracts.Factory.Config.{
  set_config, propose_fee_change, execute_config_change, cancel_config_change, propose_wasm_upgrade,
}
use tikka_contracts.Factory.Tracking.{set_whitelist_status, set_verified}
use tikka_contracts.Factory.Registry.{clean_old_raffle}
use tikka_contracts.Factory.Calls.{
  FactoryRequest, on_set_factory_paused, on_set_creation_paused, on_set_emergency_pause,
  on_set_creation_delay, on_transfer_factory_admin, on_sync_admin, on_set_instance_paused,
  on_set_whitelist_status, on_set_verified, on_rescue_tokens, on_set_config, on_propose_fee_change,
  on_execute_config_change, on_cancel_config_change, on_propose_wasm_upgrade, on_clean_old_raffle,
  on_init_factory, on_track_participant, on_accept_factory_admin, on_create_raffle,
  on_trigger_next_round, on_create_recurring_raffle, on_cancel_recurring_raffle, on_record_volume,
  on_record_leaderboard_entry, on_set_profile_name, factory_of, factory_perform,
}

-- The requests that only the admin may make.
unfoldable pub is_for_admin : FactoryRequest → Bool
is_for_admin (on_set_factory_paused b) = true
is_for_admin (on_set_creation_paused b) = true
is_for_admin (on_set_emergency_pause b) = true
is_for_admin (on_set_creation_delay n) = true
is_for_admin (on_transfer_factory_admin a) = true
is_for_admin (on_sync_admin a) = true
is_for_admin (on_set_instance_paused a b) = true
is_for_admin (on_set_whitelist_status a b) = true
is_for_admin (on_set_verified a b) = true
is_for_admin (on_rescue_tokens a b n) = true
is_for_admin (on_set_config k a) = true
is_for_admin (on_propose_fee_change n) = true
is_for_admin (on_execute_config_change n) = true
is_for_admin (on_cancel_config_change n) = true
is_for_admin (on_propose_wasm_upgrade w) = true
is_for_admin (on_clean_old_raffle n) = true
is_for_admin (on_init_factory a w f t) = false
is_for_admin (on_track_participant a) = false
is_for_admin on_accept_factory_admin = false
is_for_admin (on_create_raffle a c) = false
is_for_admin (on_trigger_next_round n) = false
is_for_admin (on_create_recurring_raffle a c) = false
is_for_admin (on_cancel_recurring_raffle n a) = false
is_for_admin (on_record_volume a n) = false
is_for_admin (on_record_leaderboard_entry a m n q) = false
is_for_admin (on_set_profile_name a w) = false

-- The admin, if there is one, has not signed the call.
abbrev pub IsUnsigned : FactoryEnv → Factory → Type 0
IsUnsigned env s = (admin : Address) → s.admin ≡ some admin → env.host.authorized admin ≡ false

Fails : {A : Type 0} → FactoryCall A → Type 0
Fails m = Returns (λ _. ⊥) m

module _ (env : FactoryEnv) (s : Factory) (h : IsUnsigned env s) where
  require_admin-Fails :
      {A : Type 0} (f : Address → FactoryCall A) → Fails (require_admin env s >>= f)
  unfolding require_admin Fails
  require_admin-Fails f =
      Returns-then f
        (Returns-bind _ _ (λ admin e.
          Returns-bind _ _
            (λ u k. absurd (signed (env.host.authorized admin) (h admin (ok_or-eq-ok _ _ e)) k))))
        (λ a x. absurd x)
    where
      signed :
          (b : Bool)
          → b ≡ false
          → {u : Unit {0}} → ◌≡◌ {A = FactoryCall (Unit {0})} (trap_unless b) (ok u)
          → ⊥
      signed true e k = cc
      signed false e k = cc

  factory_of-Fails : {A : Type 0} (m : FactoryCall (A × Factory)) → Fails m → Fails (factory_of m)
  unfolding factory_of Fails
  factory_of-Fails m k = Returns-then _ k (λ a x. absurd x)

factory_perform-Fails :
    (env : FactoryEnv) (request : FactoryRequest) (s : Factory)
    → IsUnsigned env s
    → is_for_admin request ≡ true
    → Fails (factory_perform env request s)
unfolding is_for_admin factory_perform set_factory_paused set_creation_paused set_emergency_pause
    set_creation_delay transfer_factory_admin sync_admin set_instance_paused set_whitelist_status
    set_verified rescue_tokens set_config propose_fee_change execute_config_change
    cancel_config_change propose_wasm_upgrade clean_old_raffle
factory_perform-Fails env (on_set_factory_paused b) s h e = require_admin-Fails env s h _
factory_perform-Fails env (on_set_creation_paused b) s h e = require_admin-Fails env s h _
factory_perform-Fails env (on_set_emergency_pause b) s h e = require_admin-Fails env s h _
factory_perform-Fails env (on_set_creation_delay n) s h e = require_admin-Fails env s h _
factory_perform-Fails env (on_transfer_factory_admin a) s h e = require_admin-Fails env s h _
factory_perform-Fails env (on_sync_admin a) s h e = require_admin-Fails env s h _
factory_perform-Fails env (on_set_instance_paused a b) s h e = require_admin-Fails env s h _
factory_perform-Fails env (on_set_whitelist_status a b) s h e = require_admin-Fails env s h _
factory_perform-Fails env (on_set_verified a b) s h e = require_admin-Fails env s h _
factory_perform-Fails env (on_rescue_tokens a b n) s h e = require_admin-Fails env s h _
factory_perform-Fails env (on_set_config k a) s h e =
    factory_of-Fails env s h _ (require_admin-Fails env s h _)
factory_perform-Fails env (on_propose_fee_change n) s h e =
    factory_of-Fails env s h _ (require_admin-Fails env s h _)
factory_perform-Fails env (on_execute_config_change n) s h e = require_admin-Fails env s h _
factory_perform-Fails env (on_cancel_config_change n) s h e = require_admin-Fails env s h _
factory_perform-Fails env (on_propose_wasm_upgrade w) s h e =
    factory_of-Fails env s h _ (require_admin-Fails env s h _)
factory_perform-Fails env (on_clean_old_raffle n) s h e = require_admin-Fails env s h _
factory_perform-Fails env (on_init_factory a w f t) s h e = cc
factory_perform-Fails env (on_track_participant a) s h e = cc
factory_perform-Fails env on_accept_factory_admin s h e = cc
factory_perform-Fails env (on_create_raffle a c) s h e = cc
factory_perform-Fails env (on_trigger_next_round n) s h e = cc
factory_perform-Fails env (on_create_recurring_raffle a c) s h e = cc
factory_perform-Fails env (on_cancel_recurring_raffle n a) s h e = cc
factory_perform-Fails env (on_record_volume a n) s h e = cc
factory_perform-Fails env (on_record_leaderboard_entry a m n q) s h e = cc
factory_perform-Fails env (on_set_profile_name a w) s h e = cc

-- A request that is for the admin alone does not succeed without the signature of the admin, and not at all
-- while there is none.
pub only_admin :
    (env : FactoryEnv) (request : FactoryRequest) (s t : Factory)
    → is_for_admin request ≡ true
    → IsUnsigned env s
    → factory_perform env request s ≢ ok t
unfolding Fails
only_admin env request s t e h k = (factory_perform-Fails env request s h e).at k
