-- ===== src/Factory/Calls/Creation.antt =====
-- What the creation of a raffle adds to the register of the factory.
use tikka_contracts.Prelude.{
  ℕ, ◌+◌, ◌<◌, ◌^◌, true, false, ◌≡◌, refl, sym, ap, ◌∙◌, Option, none, some, is_some,
}
use mathlib.Core.Path.{subst}
use tikka_contracts.Prelude.Outcome.{
  Outcome, Returns, Returns-bind, Returns-ok, Returns-then, returns_rules,
}
use tikka_contracts.Shared.Types.{Address, Bytes, RaffleConfig}
use tikka_contracts.Instance.State.{Contract}
use tikka_contracts.Instance.Init.{init}
use tikka_contracts.Factory.State.{Factory, ContractError, FactoryEnv, factory_address}
use tikka_contracts.Factory.Registry.{
  create_raffle_internal, create_raffle, index_raffle, maybe_create_checkpoint, check_creation_rate,
}
use tikka_contracts.Factory.Recurring.{trigger_next_round}
use tikka_contracts.Factory.Calls.Frame.{
  register_of, rounds_of, Grows, Keeps, invoke_contract-Keeps,
}
use tikka_contracts.Factory.Calls.Writes.{
  with_raffle, Registers, Deploys, or_trap-checked_u32, deploy_raffle-Deploys,
  index_raffle-register, index_raffle-settings, index_raffle-rounds, index_raffle-instances,
}

indexed-Registers :
    (env : FactoryEnv) (creator address : Address) (category : Option Bytes) (s d t : Factory)
    (n : ℕ)
    → Deploys s address d
    → Keeps d t
    → n ≡ t.total_raffles_created + 1
    → n < 2 ^ 32
    → Registers s (
        maybe_create_checkpoint env n
          (record (index_raffle creator address category t) { total_raffles_created = n }))
indexed-Registers env creator address category s d t n deployed kept counted fits = record {
  address = address;
  fresh = deployed.fresh;
  stored = subst (λ i. is_some (i address) ≡ true) (sym same) (kept.grows address deployed.stored);
  fits = subst (λ k. k < 2 ^ 32) (counted ∙ ap (λ r. r.created + 1) register) fits;
  grows =
      λ a h. subst (λ i. is_some (i a) ≡ true) (sym same) (kept.grows a (deployed.keeps.grows a h));
  register =
      index_raffle-register env creator address category t n counted
      ∙ ap (with_raffle address) register;
  settings =
      index_raffle-settings env creator address category t n
      ∙ kept.settings
      ∙ deployed.keeps.settings;
}
  where
    same :
        (maybe_create_checkpoint env n (record (index_raffle creator address category t) {
          total_raffles_created = n;
        })).instances
        ≡ t.instances
    same = index_raffle-instances env creator address category t n

    register : register_of t ≡ register_of s
    register = kept.register ∙ deployed.keeps.register

pub create_raffle_internal-Registers :
    (env : FactoryEnv) (creator : Address) (config : RaffleConfig) (s : Factory)
    → Returns (λ r. Registers s r.1) (create_raffle_internal env creator config s)
unfolding create_raffle_internal
create_raffle_internal-Registers env creator config s = Returns-bind _ _ (λ admin e.
    Returns-then _ (deploy_raffle-Deploys env creator config s) (λ r deployed.
      Returns-then _
        (invoke_contract-Keeps env r.0
          (λ host c. init host (factory_address env) admin creator config c) r.1)
        (λ t kept. Returns-bind _ _ (λ n e. Returns-ok _ (
          indexed-Registers env creator r.0 config.category s r.1 t n deployed kept
            (or_trap-checked_u32 _ e).0
            (subst (λ k. k < 2 ^ 32) (sym (or_trap-checked_u32 _ e).0)
              (or_trap-checked_u32 _ e).1))))))

false-backwards :
    (f g : Address → Option Contract)
    → Grows f g
    → (a : Address) → is_some (g a) ≡ false
    → is_some (f a) ≡ false
false-backwards f g h a e = missing (f a) (h a)
  where
    missing : (o : Option Contract) → (is_some o ≡ true → is_some (g a) ≡ true) → is_some o ≡ false
    missing none k = refl
    missing (some c) k = sym (k refl) ∙ e

Keeps-Registers : (s d t : Factory) → Keeps s d → Registers d t → Registers s t
Keeps-Registers s d t kept made = record {
  address = made.address;
  fresh = false-backwards s.instances d.instances kept.grows made.address made.fresh;
  stored = made.stored;
  fits = subst (λ r. r.created + 1 < 2 ^ 32) kept.register made.fits;
  grows = λ a h. made.grows a (kept.grows a h);
  register = made.register ∙ ap (with_raffle made.address) kept.register;
  settings = made.settings ∙ kept.settings;
}

weaken :
    {A : Type 0} {P Q : A → Type 0} {m : Outcome ContractError A}
    → Returns Q m
    → ((a : A) → Q a → P a)
    → Returns P m
weaken h k = record { at = λ e. k _ (h.at e) }

check_creation_rate-Keeps :
    (env : FactoryEnv) (creator : Address) (s : Factory)
    → Returns (Keeps s) (check_creation_rate env creator s)
unfolding check_creation_rate
check_creation_rate-Keeps env creator s = search (returns_rules) depth 40

pub create_raffle-Registers :
    (env : FactoryEnv) (creator : Address) (config : RaffleConfig) (s : Factory)
    → Returns (λ r. Registers s r.1) (create_raffle env creator config s)
unfolding create_raffle
create_raffle-Registers env creator config s = Returns-bind _ _ (λ u e. Returns-bind _ _ (λ u e.
    Returns-bind _ _ (λ u e. Returns-then _ (check_creation_rate-Keeps env creator s) (λ d kept.
      Returns-bind _ _ (λ treasury e. Returns-bind _ _ (λ final e. Returns-bind _ _ (λ u e.
        weaken (create_raffle_internal-Registers env creator final d)
          (λ r made. Keeps-Registers s d r.1 kept made))))))))

pub trigger_next_round-Registers :
    (env : FactoryEnv) (id : ℕ) (s : Factory)
    → Returns (λ r. Registers s r.1) (trigger_next_round env id s)
unfolding trigger_next_round
trigger_next_round-Registers env id s = Returns-bind _ _ (λ u e. Returns-bind _ _ (λ entry e.
    Returns-bind _ _ (λ u e. Returns-bind _ _ (λ config e.
      Returns-then _ (create_raffle_internal-Registers env entry.creator config s) (λ r made.
        Returns-ok _ (record {
          address = made.address;
          fresh = made.fresh;
          stored = made.stored;
          fits = made.fits;
          grows = made.grows;
          register = made.register;
          settings = made.settings;
        }))))))

-- A new raffle is no round yet.
pub create_raffle_internal-rounds :
    (env : FactoryEnv) (creator : Address) (config : RaffleConfig) (s : Factory)
    → Returns (λ r. rounds_of r.1 ≡ rounds_of s) (create_raffle_internal env creator config s)
unfolding create_raffle_internal
create_raffle_internal-rounds env creator config s = Returns-bind _ _ (λ admin e.
    Returns-then _ (deploy_raffle-Deploys env creator config s) (λ r deployed.
      Returns-then _
        (invoke_contract-Keeps env r.0
          (λ host c. init host (factory_address env) admin creator config c) r.1)
        (λ t kept. Returns-bind _ _ (λ n e. Returns-ok _ (
          index_raffle-rounds env creator r.0 config.category t n
          ∙ kept.rounds
          ∙ deployed.keeps.rounds)))))

pub create_raffle-rounds :
    (env : FactoryEnv) (creator : Address) (config : RaffleConfig) (s : Factory)
    → Returns (λ r. rounds_of r.1 ≡ rounds_of s) (create_raffle env creator config s)
unfolding create_raffle
create_raffle-rounds env creator config s = Returns-bind _ _ (λ u e. Returns-bind _ _ (λ u e.
    Returns-bind _ _ (λ u e. Returns-then _ (check_creation_rate-Keeps env creator s) (λ d kept.
      Returns-bind _ _ (λ treasury e. Returns-bind _ _ (λ final e. Returns-bind _ _ (λ u e.
        weaken (create_raffle_internal-rounds env creator final d)
          (λ r same. same ∙ kept.rounds))))))))
