-- ===== src/Tests/FactoryRuns.antt =====
-- A factory, and runs of its calls.
use tikka_contracts.Prelude.{ℕ, ◌<◌, ◌-◌, ◌^◌, arith, ◌≡◌, refl, true, false, some, [], ◌∷◌}
use tikka_contracts.Prelude.Outcome.{ok, err, trap, ◌>>=◌}
use tikka_contracts.Shared.Types.{Address}
use tikka_contracts.Shared.Types.{resolve_defaults}
use tikka_contracts.Shared.Validate.{
  validate_config, validate_schedule, validate_supply, validate_pricing, validate_parties,
  validate_windows, check_bundle, check_bundles, sum_prizes, check_oracle, is_category_byte,
  all_category_bytes, validate_category,
}
use tikka_contracts.Instance.Calls.{empty_contract}
use tikka_contracts.Factory.Config.{propose_fee_change, cancel_config_change}
use tikka_contracts.Factory.Recurring.{trigger_next_round}
use tikka_contracts.Factory.Registry.{create_raffle}
use tikka_contracts.Factory.Tracking.{set_whitelist_status}
use tikka_contracts.Factory.Recurring.{new_entry}
use tikka_contracts.Shared.Validate.{with_address_cap, bytes_eq}
use tikka_contracts.Shared.Builder.{build, from_config}
use tikka_contracts.Factory.Tracking.Partners.{IsPartnerList}
use tikka_contracts.Factory.State.{Factory, FactoryEnv, RecurringRaffleConfig}
use tikka_contracts.Factory.Calls.{
  FactoryRequest, on_init_factory, on_create_raffle, on_propose_fee_change, on_cancel_config_change,
  on_create_recurring_raffle, on_trigger_next_round, on_set_whitelist_status, factory_perform,
  factory_of, empty_factory, FactoryReachable, factory_deployed, factory_called,
}
use tikka_contracts.Tests.Samples.{config, host, balances}

-- The host of a call at a time, which deploys at an address.
abbrev pub factory_host : ℕ → Address → FactoryEnv
factory_host timestamp address = record {
  host = record host { timestamp = timestamp };
  caller = 100;
  creation_xdr = λ a d. a ∷ d;
  nonce_xdr = λ a n. a ∷ n ∷ [];
  deploy = λ w salt. some address;
  deployed_address = λ salt. 100;
}

abbrev pub now : FactoryEnv
now = factory_host 100_000 100

abbrev pub hour_later : FactoryEnv
hour_later = factory_host 103_600 101

abbrev pub weekly : RecurringRaffleConfig
weekly = record {
  base_config = config;
  interval_seconds = 3_600;
  max_rounds = 3;
  auto_fund = false;
}

-- The state after a call, where it succeeds.
pub factory_after : FactoryEnv → FactoryRequest → Factory → Factory
unfolding factory_perform
factory_after env request s = elim (factory_perform env request s) [
  | ok t ↦ t
  | err e ↦ s
  | trap ↦ s
]

pub fresh : Factory
fresh = empty_factory balances

pub ready : Factory
ready = factory_after now (on_init_factory 5 (1 ∷ []) 200 71) fresh

pub ready_ok : factory_perform now (on_init_factory 5 (1 ∷ []) 200 71) fresh ≡ ok ready
unfolding ready factory_after fresh empty_factory factory_perform ◌>>=◌
ready_ok = refl

pub ready-FactoryReachable : FactoryReachable ready
unfolding fresh
ready-FactoryReachable =
    factory_called now (on_init_factory 5 (1 ∷ []) 200 71) (factory_deployed balances) ready_ok

pub one_raffle : Factory
one_raffle = factory_after now (on_create_raffle 4 config) ready

pub one_raffle_ok : factory_perform now (on_create_raffle 4 config) ready ≡ ok one_raffle
unfolding one_raffle ready factory_after fresh empty_factory factory_perform factory_of ◌>>=◌
    validate_config validate_schedule validate_supply validate_pricing validate_parties
    validate_windows check_bundle check_bundles sum_prizes check_oracle is_category_byte
    all_category_bytes validate_category resolve_defaults empty_contract
one_raffle_ok = refl

pub one_raffle-FactoryReachable : FactoryReachable one_raffle
one_raffle-FactoryReachable =
    factory_called now (on_create_raffle 4 config) ready-FactoryReachable one_raffle_ok

pub one_raffle_created : create_raffle now 4 config ready ≡ ok (100, one_raffle)
unfolding one_raffle ready factory_after fresh empty_factory factory_perform factory_of ◌>>=◌
    create_raffle validate_config validate_schedule validate_supply validate_pricing
    validate_parties validate_windows check_bundle check_bundles sum_prizes check_oracle
    is_category_byte all_category_bytes validate_category resolve_defaults empty_contract
one_raffle_created = refl

pub proposed : Factory
proposed = factory_after now (on_propose_fee_change 300) ready

pub proposed_ok : factory_perform now (on_propose_fee_change 300) ready ≡ ok proposed
unfolding proposed ready factory_after fresh empty_factory factory_perform factory_of ◌>>=◌
proposed_ok = refl

pub proposed_id : propose_fee_change now 300 ready ≡ ok (1, proposed)
unfolding proposed ready factory_after fresh empty_factory factory_perform factory_of ◌>>=◌
    propose_fee_change
proposed_id = refl

pub proposed-FactoryReachable : FactoryReachable proposed
proposed-FactoryReachable =
    factory_called now (on_propose_fee_change 300) ready-FactoryReachable proposed_ok

pub withdrawn : Factory
withdrawn = factory_after now (on_cancel_config_change 1) proposed

pub withdrawn_ok : cancel_config_change now 1 proposed ≡ ok withdrawn
unfolding withdrawn proposed ready factory_after fresh empty_factory factory_perform factory_of
    ◌>>=◌ cancel_config_change
withdrawn_ok = refl

pub subscribed : Factory
subscribed = factory_after now (on_create_recurring_raffle 4 weekly) ready

pub subscribed_ok : factory_perform now (on_create_recurring_raffle 4 weekly) ready ≡ ok subscribed
unfolding subscribed ready factory_after fresh empty_factory factory_perform factory_of ◌>>=◌
subscribed_ok = refl

pub subscribed-FactoryReachable : FactoryReachable subscribed
subscribed-FactoryReachable =
    factory_called now (on_create_recurring_raffle 4 weekly) ready-FactoryReachable subscribed_ok

pub first_round : Factory
first_round = factory_after hour_later (on_trigger_next_round 0) subscribed

pub first_round_ok :
    factory_perform hour_later (on_trigger_next_round 0) subscribed ≡ ok first_round
unfolding first_round subscribed ready factory_after fresh empty_factory factory_perform factory_of
    ◌>>=◌ validate_config validate_schedule validate_supply validate_pricing validate_parties
    validate_windows check_bundle check_bundles sum_prizes check_oracle is_category_byte
    all_category_bytes validate_category resolve_defaults empty_contract
first_round_ok = refl

pub first_round_made : trigger_next_round hour_later 0 subscribed ≡ ok (101, first_round)
unfolding first_round subscribed ready factory_after fresh empty_factory factory_perform factory_of
    ◌>>=◌ trigger_next_round validate_config validate_schedule validate_supply validate_pricing
    validate_parties validate_windows check_bundle check_bundles sum_prizes check_oracle
    is_category_byte all_category_bytes validate_category resolve_defaults empty_contract
first_round_made = refl

pub first_round-FactoryReachable : FactoryReachable first_round
first_round-FactoryReachable =
    factory_called hour_later (on_trigger_next_round 0) subscribed-FactoryReachable first_round_ok

pub listed : Factory
listed = factory_after now (on_set_whitelist_status 8 true) ready

pub listed_ok : set_whitelist_status now 8 true ready ≡ ok listed
unfolding listed ready factory_after fresh empty_factory factory_perform factory_of ◌>>=◌
    set_whitelist_status
listed_ok = refl

pub withdrawn_counted : withdrawn.op_counter < 2 ^ 32 - 1
unfolding withdrawn proposed ready factory_after fresh empty_factory factory_perform factory_of
    ◌>>=◌
withdrawn_counted = omega arith

pub subscribed_entry : subscribed.recurring_raffle 0 ≡ some (new_entry now 4 weekly)
unfolding subscribed ready factory_after fresh empty_factory factory_perform factory_of ◌>>=◌
subscribed_entry = refl

pub ready-IsPartnerList : IsPartnerList ready.whitelisted_partner ready.partners_list
unfolding ready factory_after fresh empty_factory factory_perform factory_of ◌>>=◌
ready-IsPartnerList = record { in_sync = λ a. refl; distinct = tt }

pub built_ok :
    build 100 (λ t. true) (from_config config) ≡ ok (resolve_defaults (with_address_cap config))
unfolding build from_config bytes_eq validate_config validate_schedule validate_supply
    validate_pricing validate_parties validate_windows check_bundle check_bundles sum_prizes
    check_oracle is_category_byte all_category_bytes validate_category resolve_defaults ◌>>=◌
built_ok = refl
