-- ===== src/Shared/Builder/Build.antt =====
-- Configurations that the builder has built are built again unchanged.
use mathlib.Core.Path.{subst}
use tikka_contracts.Prelude.{ℕ, Bool, ◌≡◌, refl, ap, ◌∙◌, Option, none, arith}
use tikka_contracts.Prelude.Outcome.{ok}
use tikka_contracts.Shared.Types.{Address, RaffleConfig, resolve_defaults}
use tikka_contracts.Shared.Validate.{validate_config, with_address_cap}
use tikka_contracts.Shared.Validate.Accepts.{IsAcceptable, windows_resolved, validate_config_iff}
use tikka_contracts.Shared.Builder.{RaffleConfigBuilder, from_config, collected, build}

abbrev completed : RaffleConfig → RaffleConfig
completed c = resolve_defaults (with_address_cap c)

completed_twice : (c : RaffleConfig) → completed (completed c) ≡ completed c
unfolding resolve_defaults
completed_twice c = ground arith

completed-IsAcceptable :
    (now : ℕ) (has_decimals : Address → Bool) (self : Option Address) (c : RaffleConfig)
    → IsAcceptable now has_decimals self c
    → IsAcceptable now has_decimals self (completed c)
unfolding resolve_defaults
completed-IsAcceptable now has_decimals self c h = record {
  schedule = record {
    described = h.schedule.described;
    deadline = h.schedule.deadline;
    open_ended = h.schedule.open_ended;
  };
  supply = record {
    some_tickets = h.supply.some_tickets;
    few_tickets = h.supply.few_tickets;
    range = h.supply.range;
    some_per_tx = h.supply.some_per_tx;
    few_per_tx = h.supply.few_per_tx;
    per_address = ground (arith, h.supply.per_address, h.supply.some_tickets);
  };
  pricing = record {
    priced = h.pricing.priced;
    covered = h.pricing.covered;
    payable = h.pricing.payable;
    some_prizes = h.pricing.some_prizes;
    few_prizes = h.pricing.few_prizes;
    whole = h.pricing.whole;
    fee = h.pricing.fee;
    treasury = h.pricing.treasury;
    few_bundles = h.pricing.few_bundles;
    ladder = h.pricing.ladder;
  };
  parties = record {
    oracle = h.parties.oracle;
    hashed = h.parties.hashed;
    category = h.parties.category;
    token = h.parties.token;
  };
  windows = (windows_resolved c).1 h.windows;
}

collected-from_config : (c : RaffleConfig) → collected (from_config c) ≡ c
unfolding collected from_config
collected-from_config c = refl

-- A configuration that the builder returns, put into a builder of its own by `from_config`, is accepted
-- again at the same time and returned as it is: nothing is lost, and no default is filled in twice.
pub build-from_config :
    (now : ℕ) (has_decimals : Address → Bool) (b : RaffleConfigBuilder) (d : RaffleConfig)
    → build now has_decimals b ≡ ok d
    → build now has_decimals (from_config d) ≡ ok d
unfolding build
build-from_config now has_decimals b d e =
    ap (λ c. validate_config now has_decimals c none) (collected-from_config d)
    ∙ (validate_config_iff now has_decimals none d d).1 (accepted, fixed)
  where
    first : IsAcceptable now has_decimals none (collected b) × (completed (collected b) ≡ d)
    first = (validate_config_iff now has_decimals none (collected b) d).0 e

    accepted : IsAcceptable now has_decimals none d
    accepted =
        subst (IsAcceptable now has_decimals none) first.1
          (completed-IsAcceptable now has_decimals none (collected b) first.0)

    fixed : completed d ≡ d
    fixed = subst (λ c. completed c ≡ c) first.1 (completed_twice (collected b))
