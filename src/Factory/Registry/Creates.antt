-- ===== src/Factory/Registry/Creates.antt =====
-- What a created raffle starts with: the composition of the factory with the builder and with `init`.
use mathlib.Core.Path.{ap₂}
use tikka_contracts.Prelude.{◌≡◌, ◌≢◌, ap, sym, ◌∙◌, none, some}
use tikka_contracts.Prelude.Outcome.{Outcome, ok, Returns, Returns-bind, Returns-then, ok_or-eq-ok}
use tikka_contracts.Shared.Types.{Address, RaffleConfig}
use tikka_contracts.Instance.State.{Contract}
use tikka_contracts.Factory.State.{Factory, FactoryEnv, ContractError, factory_address}
use tikka_contracts.Factory.Registry.{create_raffle}
use tikka_contracts.Factory.Registry.Parts.{
  Carries, create_raffle_internal-Carries, Finishes, build-Finishes, Settled,
  check_creation_rate-Settled,
}
use tikka_contracts.Factory.Registry.Fresh.{fresh_raffle}

-- What `create_raffle` promises of the contract at the address that it returns.
pub record Creates (env : FactoryEnv) (s : Factory) (owner : Address) (config : RaffleConfig)
    (r : Address × Factory) : Type 0 where
  pub contract : Contract
  pub deployed : r.1.instances r.0 ≡ some contract
  pub stored : contract.raffle ≡ some (fresh_raffle owner s.protocol_fee_bp s.treasury config)
  pub has_treasury : s.treasury ≢ none
  pub factory : contract.factory ≡ some (factory_address env)
  pub admin : contract.admin ≡ s.admin

Carries-Creates :
    (env : FactoryEnv) (creator treasury : Address) (config d : RaffleConfig) (s timed : Factory)
    (r : Address × Factory)
    → Settled s timed
    → timed.treasury ≡ some treasury
    → Finishes timed.protocol_fee_bp treasury config d
    → Carries env timed creator d r
    → Creates env s creator config r
Carries-Creates env creator treasury config d s timed r settled paid final carried = record {
  contract = carried.holds.contract;
  deployed = carried.holds.found;
  stored =
      carried.holds.has.stored
      ∙ ap some (
          final.same creator
          ∙ ap₂ (λ bp to. fresh_raffle creator bp to config) settled.fee
              (sym paid ∙ settled.treasury));
  has_treasury = λ e. let known = sym paid ∙ settled.treasury ∙ e in cc;
  factory = carried.holds.has.factory;
  admin = carried.holds.has.admin ∙ sym carried.admin_is ∙ settled.admin;
}

create_raffle-Returns :
    (env : FactoryEnv) (creator : Address) (config : RaffleConfig) (s : Factory)
    → Returns (Creates env s creator config) (create_raffle env creator config s)
unfolding create_raffle
create_raffle-Returns env creator config s = Returns-bind _ _ (λ u e. Returns-bind _ _ (λ u e.
    Returns-bind _ _ (λ u e.
      Returns-then _ (check_creation_rate-Settled env creator s) (λ timed settled.
        Returns-bind _ _ (λ treasury paid. Returns-bind _ _ (λ final e. Returns-bind _ _ (λ u k.
          weaken (create_raffle_internal-Carries env creator final timed) (λ r carried.
            Carries-Creates env creator treasury config final s timed r settled
              (ok_or-eq-ok _ _ paid)
              (build-Finishes env.host.timestamp env.host.has_decimals timed.protocol_fee_bp
                treasury config final e)
              carried))))))))
  where
    weaken :
        {A : Type 0} {P Q : A → Type 0} {m : Outcome ContractError A}
        → Returns Q m
        → ((a : A) → Q a → P a)
        → Returns P m
    weaken h k = record { at = λ e. k _ (h.at e) }

-- Where `create_raffle` succeeds, a contract stands at the address that it returns. It knows the factory,
-- has the factory's admin, and stores, field by field, the raffle that the configuration asks for: with its
-- creator and all its terms, the fee and the treasury of the factory, which has one, the one-ticket cap and
-- the default windows where the configuration leaves them open, the payment token as its prize token, no
-- ticket sold, no prize paid in, no winner, and the status PendingPrize.
pub create_raffle-Creates :
    (env : FactoryEnv) (creator address : Address) (config : RaffleConfig) (s t : Factory)
    → create_raffle env creator config s ≡ ok (address, t)
    → Creates env s creator config (address, t)
create_raffle-Creates env creator address config s t e =
    (create_raffle-Returns env creator config s).at e
