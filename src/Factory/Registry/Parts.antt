-- ===== src/Factory/Registry/Parts.antt =====
-- What the parts of a creation return: `init`, the deployment, the builder and the creation delay.
use mathlib.Core.Path.{subst}
use tikka_contracts.Prelude.{
  ap, not, ◌&&◌, ◌==◌, if◌then◌else◌, ℕ, Bool, ◌≡◌, refl, sym, Option, none, some, arith,
}
use tikka_contracts.Prelude.Outcome.{
  Outcome, ok, err, trap, Returns, Returns-bind, Returns-ok, Returns-trap, Returns-then,
  ok_or-eq-ok, returns_rules,
}
use tikka_contracts.Shared.Types.{Address, Bytes, RaffleConfig, resolve_defaults}
use tikka_contracts.Shared.Validate.{ConfigValidationError, with_address_cap}
use tikka_contracts.Shared.Validate.Accepts.{validate_config_iff}
use tikka_contracts.Shared.Builder.{
  from_config, with_protocol_fee_bp, with_treasury_address, collected, build,
}
use tikka_contracts.Instance.State.{Contract, Env, Call, update}
use tikka_contracts.Instance.Init.{init}
use tikka_contracts.Factory.State.{Factory, FactoryEnv, ContractError, factory_address}
use tikka_contracts.Factory.Roles.{invoke_contract, instance_host, store_instance}
use tikka_contracts.Factory.Registry.{
  create_raffle_internal, index_raffle, maybe_create_checkpoint, check_creation_rate, map_err,
}
use tikka_contracts.Factory.Registry.Fresh.{
  fresh_raffle, Initialises, default_twice, new_raffle-eq-fresh_raffle,
}

pub init-Initialises :
    (env : Env) (factory admin creator : Address) (c : RaffleConfig) (s : Contract)
    → Returns (Initialises factory admin creator c) (init env factory admin creator c s)
unfolding init
init-Initialises env factory admin creator c s = Returns-bind _ _ (λ u e. Returns-bind _ _ (λ u e.
    Returns-bind _ _ (λ u e. Returns-bind _ _ (λ u e. Returns-bind _ _ (λ u e.
      Returns-bind _ _ (λ u e. Returns-bind _ _ (λ u e. Returns-bind _ _ (λ u e.
        Returns-bind _ _ (λ u e. Returns-ok _ (record {
          stored = ap some (new_raffle-eq-fresh_raffle creator c);
          factory = refl;
          admin = refl;
        }))))))))))

-- The contract at an address.
pub record Holds (P : Contract → Type 0) (address : Address) (instances : Address → Option Contract)
    : Type 0 where
  pub contract : Contract
  pub found : instances address ≡ some contract
  pub has : P contract

pub invoke_contract-Holds :
    (P : Contract → Type 0) (env : FactoryEnv) (address : Address)
    (method : Env → Contract → Call Contract) (s : Factory)
    → ((host : Env) (c : Contract) → Returns P (method host c))
    → Returns (λ t. Holds P address t.instances) (invoke_contract env address method s)
unfolding invoke_contract
invoke_contract-Holds P env address method s h = called (s.instances address)
  where
    update_self :
        (f : Address → Option Contract) (c : Contract) → update f address (some c) address ≡ some c
    update_self f c = ground arith

    after :
        (m : Call Contract)
        → Returns P m
        → Returns {E = ContractError}
            (λ t. Holds P address t.instances)
            (store_instance address s m)
    after (ok c) k =
        Returns-ok _ (record { contract = c; found = update_self s.instances c; has = k.at refl })
    after (err e) k = Returns-trap
    after trap k = Returns-trap

    called :
        (o : Option Contract)
        → Returns {E = ContractError}
            (λ t. Holds P address t.instances)
            (elim o [
              | none ↦ trap
              | some c ↦
                  store_instance address s
                    (method (instance_host env address s) (record c { balances = s.balances }))
            ])
    called none = Returns-trap
    called (some c) = after _ (h (instance_host env address s) (record c { balances = s.balances }))

pub same-instances :
    (env : FactoryEnv) (creator address : Address) (category : Option Bytes) (s : Factory) (n : ℕ)
    → (maybe_create_checkpoint env n
        (record (index_raffle creator address category s) { total_raffles_created = n })).instances
      ≡ s.instances
unfolding index_raffle maybe_create_checkpoint
same-instances env creator address category s n = ground arith

-- The factory's own data in a new raffle.
pub record Carries (env : FactoryEnv) (s : Factory) (creator : Address) (c : RaffleConfig)
    (r : Address × Factory) : Type 0 where
  pub admin : Address
  pub admin_is : s.admin ≡ some admin
  pub holds : Holds (Initialises (factory_address env) admin creator c) r.0 r.1.instances

pub create_raffle_internal-Carries :
    (env : FactoryEnv) (creator : Address) (config : RaffleConfig) (s : Factory)
    → Returns (Carries env s creator config) (create_raffle_internal env creator config s)
unfolding create_raffle_internal
create_raffle_internal-Carries env creator config s = Returns-bind _ _ (λ admin e.
    Returns-bind _ _ (λ r k.
      Returns-then _
        (invoke_contract-Holds (Initialises (factory_address env) admin creator config) env r.0
          (λ host c. init host (factory_address env) admin creator config c) r.1
          (λ host c. init-Initialises host (factory_address env) admin creator config c))
        (λ t held. Returns-bind _ _ (λ n k. Returns-ok _ (record {
          admin = admin;
          admin_is = ok_or-eq-ok _ _ e;
          holds =
              subst (Holds (Initialises (factory_address env) admin creator config) r.0)
                (sym (same-instances env creator r.0 config.category t n)) held;
        })))))

-- A configuration that asks for the same raffle as another one, with the fee and the treasury given.
pub record Finishes (bp : ℕ) (recipient : Address) (config d : RaffleConfig) : Type 0 where
  pub same :
      (owner : Address)
      → fresh_raffle owner d.protocol_fee_bp d.treasury_address d
        ≡ fresh_raffle owner bp (some recipient) config

cap_twice :
    (cap : ℕ) (several : Bool)
    → (if (if cap == 0 && not several then 1 else cap) == 0 && not several
        then 1
        else (if cap == 0 && not several then 1 else cap))
      ≡ (if cap == 0 && not several then 1 else cap)
cap_twice cap several = ground arith

pub final_config : ℕ → Address → RaffleConfig → RaffleConfig
final_config fee treasury config = resolve_defaults (
    with_address_cap (
      collected
        (with_treasury_address (some treasury) (with_protocol_fee_bp fee (from_config config)))))

pub final_config-Finishes :
    (fee : ℕ) (treasury : Address) (config : RaffleConfig)
    → Finishes fee treasury config (final_config fee treasury config)
unfolding final_config resolve_defaults collected from_config
final_config-Finishes fee treasury config = record {
  same = λ owner i. record (fresh_raffle owner fee (some treasury) config) {
    max_tickets_per_address = cap_twice config.max_tickets_per_address config.allow_multiple i;
    claim_lockup_seconds = default_twice config.claim_lockup_seconds 3_600 i;
    claim_expiry_seconds = default_twice config.claim_expiry_seconds 2_592_000 i;
    swap_deadline_seconds = default_twice config.swap_deadline_seconds 300 i;
  };
}

pub map_err-ok :
    (m : Outcome ConfigValidationError RaffleConfig) {d : RaffleConfig}
    → map_err m ≡ ok d
    → m ≡ ok d
map_err-ok (ok c) e = cc
map_err-ok (err x) e = cc
map_err-ok trap e = cc

pub build-Finishes :
    (now : ℕ) (has_decimals : Address → Bool) (fee : ℕ) (treasury : Address)
    (config d : RaffleConfig)
    → map_err (
        build now has_decimals
          (with_treasury_address (some treasury) (with_protocol_fee_bp fee (from_config config))))
      ≡ ok d
    → Finishes fee treasury config d
unfolding build final_config
build-Finishes now has_decimals fee treasury config d e =
    subst (Finishes fee treasury config)
      ((validate_config_iff now has_decimals none
          (collected
            (with_treasury_address (some treasury) (with_protocol_fee_bp fee (from_config config))))
          d).0
        (map_err-ok _ e)).1
      (final_config-Finishes fee treasury config)

-- The creation delay changes none of this.
pub record Settled (s d : Factory) : Type 0 where
  pub admin : d.admin ≡ s.admin
  pub treasury : d.treasury ≡ s.treasury
  pub fee : d.protocol_fee_bp ≡ s.protocol_fee_bp

pub check_creation_rate-Settled :
    (env : FactoryEnv) (creator : Address) (s : Factory)
    → Returns (Settled s) (check_creation_rate env creator s)
unfolding check_creation_rate
check_creation_rate-Settled env creator s = search (returns_rules) depth 40
