-- ===== src/Factory/Recurring.antt =====
-- The recurring raffles of contracts/raffle-factory/src/lib.rs. The partner statistics behind the event
-- of `trigger_next_round` are left out: they read names that the function does not bind.
use tikka_contracts.Prelude.{
  ℕ, ◌+◌, ◌^◌, min, ◌-◌, true, false, not, ◌&&◌, ◌||◌, none, some, [], ◌∷◌, ◌++◌, ltb, leb, ◌==◌,
  if◌then◌else◌,
}
use tikka_contracts.Prelude.Outcome.{ok, ◌>>=◌, ◌>>◌, reject_if, ok_or}
use tikka_contracts.Shared.Types.{Address}
use tikka_contracts.Shared.Constants.{
  min_recurring_interval_seconds, max_recurring_interval_seconds,
}
use tikka_contracts.Shared.Builder.{from_config, build}
use tikka_contracts.Instance.State.{update}
use tikka_contracts.Instance.Helpers.{saturating_add_u32}
use tikka_contracts.Factory.State.{
  Factory, FactoryEnv, FactoryCall, RecurringRaffleConfig, RecurringRaffleEntry, invalid_parameters,
  recurring_not_found, recurring_inactive, interval_not_elapsed, max_rounds_reached, not_authorized,
}
use tikka_contracts.Factory.Roles.{require_auth, require_admin, require_factory_not_paused}
use tikka_contracts.Factory.Registry.{map_err, create_raffle_internal}

abbrev pub saturating_add_u64 : ℕ → ℕ → ℕ
saturating_add_u64 a b = min (a + b) (2 ^ 64 - 1)

abbrev pub new_entry : FactoryEnv → Address → RecurringRaffleConfig → RecurringRaffleEntry
new_entry env creator config = record {
  creator = creator;
  config = config;
  next_due = saturating_add_u64 env.host.timestamp config.interval_seconds;
  current_round = 0;
  active = true;
  last_raffle_address = none;
}

unfoldable pub create_recurring_raffle :
    FactoryEnv → Address → RecurringRaffleConfig → Factory → FactoryCall (ℕ × Factory)
unfolding require_factory_not_paused
create_recurring_raffle env creator config s = do
  require_auth env creator
  require_factory_not_paused s
  reject_if
      (ltb config.interval_seconds min_recurring_interval_seconds
        || ltb max_recurring_interval_seconds config.interval_seconds)
      invalid_parameters
  reject_if (config.max_rounds == 0 && config.auto_fund) invalid_parameters
  let recurring_id = s.next_recurring_id
  ok (
    recurring_id,
    record s {
      recurring_raffle =
          update s.recurring_raffle recurring_id (some (new_entry env creator config));
      next_recurring_id = saturating_add_u32 recurring_id 1;
      recurring_raffle_instances = update s.recurring_raffle_instances recurring_id [];
    },
  )

-- The tests on the entry of a round that is asked for.
unfoldable pub check_round : FactoryEnv → RecurringRaffleEntry → FactoryCall (Unit {0})
check_round env entry = do
  reject_if (not entry.active) recurring_inactive
  reject_if (ltb env.host.timestamp entry.next_due) interval_not_elapsed
  reject_if (ltb 0 entry.config.max_rounds && leb entry.config.max_rounds entry.current_round)
      max_rounds_reached

abbrev pub next_entry : FactoryEnv → Address → RecurringRaffleEntry → RecurringRaffleEntry
next_entry env raffle_address entry = record entry {
  current_round = saturating_add_u32 entry.current_round 1;
  next_due = saturating_add_u64 env.host.timestamp entry.config.interval_seconds;
  last_raffle_address = some raffle_address;
}

unfoldable pub trigger_next_round : FactoryEnv → ℕ → Factory → FactoryCall (Address × Factory)
unfolding require_factory_not_paused check_round from_config build create_raffle_internal
trigger_next_round env recurring_id s = do
  require_factory_not_paused s
  entry ← ok_or (s.recurring_raffle recurring_id) recurring_not_found
  check_round env entry
  config ←
      map_err
        (build env.host.timestamp env.host.has_decimals (from_config entry.config.base_config))
  (raffle_address, created) ← create_raffle_internal env entry.creator config s
  let instances = created.recurring_raffle_instances recurring_id
  ok (
    raffle_address,
    record created {
      recurring_raffle_instances =
          update created.recurring_raffle_instances recurring_id (instances ++ raffle_address ∷ []);
      recurring_raffle =
          update created.recurring_raffle recurring_id (some (next_entry env raffle_address entry));
    },
  )

unfoldable pub cancel_recurring_raffle : FactoryEnv → ℕ → Address → Factory → FactoryCall Factory
unfolding require_admin
cancel_recurring_raffle env recurring_id caller s = do
  entry ← ok_or (s.recurring_raffle recurring_id) recurring_not_found
  if caller == entry.creator
      then ok tt
      else (do admin ← require_admin env s; reject_if (not (caller == admin)) not_authorized)
  require_auth env caller
  ok (record s {
    recurring_raffle =
        update s.recurring_raffle recurring_id (some (record entry { active = false }));
  })
