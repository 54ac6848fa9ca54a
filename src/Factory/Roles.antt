-- ===== src/Factory/Roles.antt =====
-- The checks on the caller, the initialisation, the pauses, the admin and the calls to instances of
-- contracts/raffle-factory/src/lib.rs.
use tikka_contracts.Prelude.{
  ℕ, Bool, true, not, ◌||◌, none, some, ltb, ◌==◌, if◌then◌else◌, is_some,
}
use tikka_contracts.Prelude.Int.{ℤ, pos, leb_ℤ}
use tikka_contracts.Prelude.Outcome.{ok, err, trap, ◌>>=◌, ◌>>◌, reject_if, trap_unless, ok_or}
use tikka_contracts.Shared.Types.{Address, Bytes}
use tikka_contracts.Shared.Constants.{max_protocol_fee_bp}
use tikka_contracts.Instance.State.{Contract, Env, Call, update}
use tikka_contracts.Instance.Admin.{set_paused}
use tikka_contracts.Factory.State.{
  Factory, FactoryEnv, FactoryCall, factory_address, already_initialized, not_authorized,
  contract_paused, invalid_parameters, caller_not_registered_raffle, admin_transfer_pending,
  no_pending_transfer,
}

abbrev pub require_auth : FactoryEnv → Address → FactoryCall (Unit {0})
require_auth env address = trap_unless (env.host.authorized address)

unfoldable pub require_admin : FactoryEnv → Factory → FactoryCall Address
require_admin env s = do admin ← ok_or s.admin not_authorized; require_auth env admin; ok admin

unfoldable pub require_factory_not_paused : Factory → FactoryCall (Unit {0})
require_factory_not_paused s = reject_if s.paused contract_paused

unfoldable pub require_factory_raffle : FactoryEnv → Factory → FactoryCall (Unit {0})
require_factory_raffle env s =
    reject_if (not (s.is_factory_raffle env.caller)) caller_not_registered_raffle

unfoldable pub require_valid_role_address : FactoryEnv → Address → FactoryCall (Unit {0})
require_valid_role_address env address = do
  reject_if (not (env.host.exists address)) invalid_parameters
  reject_if (address == factory_address env) invalid_parameters

unfoldable pub init_factory :
    FactoryEnv → Address → Bytes → ℕ → Address → Factory → FactoryCall Factory
unfolding require_valid_role_address
init_factory env admin wasm_hash protocol_fee_bp treasury s = do
  reject_if s.initialized already_initialized
  reject_if (ltb max_protocol_fee_bp protocol_fee_bp) invalid_parameters
  require_valid_role_address env admin
  require_valid_role_address env treasury
  ok (record s {
    admin = some admin;
    instance_wasm_hash = some wasm_hash;
    protocol_fee_bp = protocol_fee_bp;
    treasury = some treasury;
    initialized = true;
  })

-- `pause_factory` and `unpause_factory`
unfoldable pub set_factory_paused : FactoryEnv → Bool → Factory → FactoryCall Factory
unfolding require_admin
set_factory_paused env paused s = do admin ← require_admin env s; ok (record s { paused = paused })

unfoldable pub set_creation_paused : FactoryEnv → Bool → Factory → FactoryCall Factory
unfolding require_admin
set_creation_paused env paused s = do
  admin ← require_admin env s
  ok (record s { creation_paused = paused })

unfoldable pub set_creation_delay : FactoryEnv → ℕ → Factory → FactoryCall Factory
unfolding require_admin
set_creation_delay env delay_seconds s = do
  admin ← require_admin env s
  ok (record s { min_creation_delay = delay_seconds })

-- `emergency_pause_all` and `emergency_unpause_all`
unfoldable pub set_emergency_pause : FactoryEnv → Bool → Factory → FactoryCall Factory
unfolding require_admin
set_emergency_pause env paused s = do
  admin ← require_admin env s
  ok (record s { global_emergency_pause = paused })

unfoldable pub transfer_factory_admin : FactoryEnv → Address → Factory → FactoryCall Factory
unfolding require_admin require_valid_role_address
transfer_factory_admin env new_admin s = do
  admin ← require_admin env s
  if new_admin == admin then ok (record s { pending_admin = none }) else (do
    require_valid_role_address env new_admin
    reject_if (is_some s.pending_admin) admin_transfer_pending
    ok (record s { pending_admin = some new_admin }))

unfoldable pub accept_factory_admin : FactoryEnv → Factory → FactoryCall Factory
accept_factory_admin env s = do
  pending ← ok_or s.pending_admin no_pending_transfer
  require_auth env pending
  old_admin ← ok_or s.admin not_authorized
  ok (record s { admin = some pending; pending_admin = none })

-- The host of an instance that the factory calls: the factory has authorised the call by making it.
abbrev pub instance_host : FactoryEnv → Address → Factory → Env
instance_host env address s = record env.host {
  current_contract_address = address;
  authorized = λ a. a == factory_address env || env.host.authorized a;
  global_paused = s.global_emergency_pause;
}

abbrev pub store_instance : Address → Factory → Call Contract → FactoryCall Factory
store_instance address s (ok after) =
    ok (record s { instances = update s.instances address (some after); balances = after.balances })
store_instance address s (err e) = trap
store_instance address s trap = trap

-- `invoke_contract`: an error of the instance is a trap of the factory.
unfoldable pub invoke_contract :
    FactoryEnv → Address → (Env → Contract → Call Contract) → Factory → FactoryCall Factory
invoke_contract env address method s = elim (s.instances address) [
  | none ↦ trap
  | some c ↦
      store_instance address s
        (method (instance_host env address s) (record c { balances = s.balances }))
]

-- The factory invokes `set_admin`, which the raffle contract does not export: the invocation traps.
unfoldable pub sync_admin : FactoryEnv → Address → Factory → FactoryCall Factory
unfolding require_admin
sync_admin env instance_address s = do admin ← require_admin env s; trap

-- `pause_instance` and `unpause_instance`
unfoldable pub set_instance_paused : FactoryEnv → Address → Bool → Factory → FactoryCall Factory
unfolding require_admin invoke_contract set_paused
set_instance_paused env instance_address paused s = do
  admin ← require_admin env s
  invoke_contract env instance_address (λ host c. set_paused host paused c) s

unfoldable pub rescue_tokens : FactoryEnv → Address → Address → ℤ → Factory → FactoryCall Factory
unfolding require_admin
rescue_tokens env token recipient amount s = do
  admin ← require_admin env s
  reject_if (leb_ℤ amount (pos 0)) invalid_parameters
  after ←
      ok_or (env.host.transfer token (factory_address env) recipient amount s.balances)
        invalid_parameters
  ok (record s { balances = after })
