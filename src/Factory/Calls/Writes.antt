-- ===== src/Factory/Calls/Writes.antt =====
-- The writes of a deployment and of the index entries of a raffle.
use tikka_contracts.Prelude.{
  ℕ, ◌+◌, ◌<◌, ◌^◌, Bool, true, false, ◌≡◌, refl, Option, some, arith, is_some,
}
use tikka_contracts.Prelude.Outcome.{
  Outcome, ok, or_trap, trap_unless, Returns, Returns-bind, Returns-ok,
}
use tikka_contracts.Shared.Types.{Address, Bytes, RaffleConfig}
use tikka_contracts.Instance.State.{update}
use tikka_contracts.Instance.Helpers.{saturating_add_u32, checked_u32}
use tikka_contracts.Factory.State.{Factory, FactoryEnv}
use tikka_contracts.Factory.Registry.{deploy_raffle, index_raffle, maybe_create_checkpoint}
use tikka_contracts.Factory.Calls.Frame.{
  Register, register_of, settings_of, rounds_of, Grows, Keeps,
}

-- The register with one more raffle.
abbrev pub with_raffle : Address → Register → Register
with_raffle address r = record r {
  by_id = update r.by_id r.next_id (some address);
  next_id = saturating_add_u32 r.next_id 1;
  live = saturating_add_u32 r.live 1;
  created = r.created + 1;
}

pub record Registers (s t : Factory) : Type 0 where
  pub address : Address
  pub fresh : is_some (s.instances address) ≡ false
  pub stored : is_some (t.instances address) ≡ true
  pub fits : s.total_raffles_created + 1 < 2 ^ 32
  pub grows : Grows s.instances t.instances
  pub register : register_of t ≡ with_raffle address (register_of s)
  pub settings : settings_of t ≡ settings_of s

-- A contract deployed where there was none.
pub record Deploys (s : Factory) (address : Address) (t : Factory) : Type 0 where
  pub fresh : is_some (s.instances address) ≡ false
  pub stored : is_some (t.instances address) ≡ true
  pub keeps : Keeps s t

pub trap_unless-eq-ok :
    {E : Type 0} {u : Unit {0}} (b : Bool)
    → ◌≡◌ {A = Outcome E (Unit {0})} (trap_unless b) (ok u)
    → b ≡ true
trap_unless-eq-ok true h = refl
trap_unless-eq-ok false h = cc

pub or_trap-checked_u32 :
    {E : Type 0} (n : ℕ) {m : ℕ}
    → ◌≡◌ {A = Outcome E ℕ} (or_trap (checked_u32 n)) (ok m)
    → (m ≡ n) × (n < 2 ^ 32)
or_trap-checked_u32 n h = ground arith

pub deploy_raffle-Deploys :
    (env : FactoryEnv) (creator : Address) (config : RaffleConfig) (s : Factory)
    → Returns (λ r. Deploys s r.0 r.1) (deploy_raffle env creator config s)
unfolding deploy_raffle
deploy_raffle-Deploys env creator config s = Returns-bind _ _ (λ hash e.
    Returns-bind _ _ (λ address e. Returns-bind _ _ (λ u e. Returns-ok _ (record {
      fresh = ground (arith, trap_unless-eq-ok _ e);
      stored = ground arith;
      keeps = record {
        register = refl;
        rounds = refl;
        settings = refl;
        grows = λ a h. ground arith;
      };
    }))))

-- The writes behind a deployed raffle.
pub index_raffle-register :
    (env : FactoryEnv) (creator address : Address) (category : Option Bytes) (s : Factory) (n : ℕ)
    → n ≡ s.total_raffles_created + 1
    → register_of (
        maybe_create_checkpoint env n
          (record (index_raffle creator address category s) { total_raffles_created = n }))
      ≡ with_raffle address (register_of s)
unfolding index_raffle maybe_create_checkpoint
index_raffle-register env creator address category s n h = ground (arith, h)

pub index_raffle-settings :
    (env : FactoryEnv) (creator address : Address) (category : Option Bytes) (s : Factory) (n : ℕ)
    → settings_of (
        maybe_create_checkpoint env n
          (record (index_raffle creator address category s) { total_raffles_created = n }))
      ≡ settings_of s
unfolding index_raffle maybe_create_checkpoint
index_raffle-settings env creator address category s n = ground arith

pub index_raffle-rounds :
    (env : FactoryEnv) (creator address : Address) (category : Option Bytes) (s : Factory) (n : ℕ)
    → rounds_of (
        maybe_create_checkpoint env n
          (record (index_raffle creator address category s) { total_raffles_created = n }))
      ≡ rounds_of s
unfolding index_raffle maybe_create_checkpoint
index_raffle-rounds env creator address category s n = ground arith

pub index_raffle-instances :
    (env : FactoryEnv) (creator address : Address) (category : Option Bytes) (s : Factory) (n : ℕ)
    → (maybe_create_checkpoint env n
        (record (index_raffle creator address category s) { total_raffles_created = n })).instances
      ≡ s.instances
unfolding index_raffle maybe_create_checkpoint
index_raffle-instances env creator address category s n = ground arith
