-- ===== src/Factory/Calls/Ids.antt =====
-- The register of raffles, and what keeps it in order.
use mathlib.Core.Path.{subst}
use tikka_contracts.Prelude.{
  ℕ, ◌+◌, ◌<◌, ◌≤◌, ◌^◌, true, false, ◌≡◌, ◌≢◌, sym, ap, ◌∙◌, ◌⊎◌, inl, inr, Option, none, some,
  arith, is_some,
}
use tikka_contracts.Shared.Types.{Address}
use tikka_contracts.Instance.State.{Contract, update}
use tikka_contracts.Factory.State.{Factory}
use tikka_contracts.Factory.Calls.Frame.{Register, register_of, Grows}
use tikka_contracts.Factory.Calls.Writes.{with_raffle, Registers}

-- Ids are handed out in order, each to a raffle of its own that is deployed, and never given back.
pub record IsRegister (r : Register) (instances : Address → Option Contract) : Type 0 where
  pub next_is_created : r.next_id ≡ r.created
  pub live_is_created : r.live ≡ r.created
  pub fits : r.created < 2 ^ 32
  pub below : (i : ℕ) → i < r.next_id → is_some (r.by_id i) ≡ true
  pub above : (i : ℕ) → r.next_id ≤ i → r.by_id i ≡ none
  pub stored : (i : ℕ) (a : Address) → r.by_id i ≡ some a → is_some (instances a) ≡ true
  pub injective : (i j : ℕ) (a : Address) → r.by_id i ≡ some a → r.by_id j ≡ some a → i ≡ j
  pub no_creators : (i : ℕ) → r.creators i ≡ none

abbrev pub IsRegistered : Factory → Type 0
IsRegistered s = IsRegister (register_of s) s.instances

pub IsRegister-Grows :
    (r : Register) (f g : Address → Option Contract) → Grows f g → IsRegister r f → IsRegister r g
IsRegister-Grows r f g h p = record {
  next_is_created = p.next_is_created;
  live_is_created = p.live_is_created;
  fits = p.fits;
  below = p.below;
  above = p.above;
  stored = λ i a e. h a (p.stored i a e);
  injective = p.injective;
  no_creators = p.no_creators;
}

pub same-IsRegistered :
    (s t : Factory)
    → register_of t ≡ register_of s
    → Grows s.instances t.instances
    → IsRegistered s
    → IsRegistered t
same-IsRegistered s t same grows p =
    subst (λ r. IsRegister r t.instances) (sym same)
      (IsRegister-Grows (register_of s) s.instances t.instances grows p)

pub update-eq-some :
    (f : ℕ → Option Address) (n a i b : ℕ)
    → update f n (some a) i ≡ some b
    → ((i ≡ n) × (b ≡ a)) ⊎ (f i ≡ some b)
update-eq-some f n a i b h = ground arith

-- A raffle at a fresh address keeps the register.
pub with_raffle-IsRegister :
    (r : Register) (f g : Address → Option Contract) (a : Address)
    → is_some (f a) ≡ false
    → is_some (g a) ≡ true
    → r.created + 1 < 2 ^ 32
    → Grows f g
    → IsRegister r f
    → IsRegister (with_raffle a r) g
with_raffle-IsRegister r f g a fresh stored fits grows p = record {
  next_is_created = ground (arith, p.next_is_created);
  live_is_created = ground (arith, p.live_is_created);
  fits = fits;
  below = λ i h. ground (arith, p.below i, p.next_is_created);
  above = λ i h. ground (arith, p.above i, p.next_is_created);
  stored = λ i b e. elim (update-eq-some r.by_id r.next_id a i b e) [
    | inl h ↦ subst (λ c. is_some (g c) ≡ true) (sym h.1) stored
    | inr h ↦ grows b (p.stored i b h)
  ];
  injective = λ i j b e k. elim (update-eq-some r.by_id r.next_id a i b e) [
    | inl h ↦ elim (update-eq-some r.by_id r.next_id a j b k) [
      | inl l ↦ h.0 ∙ sym l.0
      | inr l ↦ absurd (not_stored j b l h.1)
    ]
    | inr h ↦ elim (update-eq-some r.by_id r.next_id a j b k) [
      | inl l ↦ absurd (not_stored i b h l.1)
      | inr l ↦ p.injective i j b h l
    ]
  ];
  no_creators = p.no_creators;
}
  where
    not_stored : (i b : ℕ) → r.by_id i ≡ some b → b ≢ a
    not_stored i b e h = cc (p.stored i b e, fresh, ap (λ c. is_some (f c)) h)

pub Registers-IsRegistered : (s t : Factory) → Registers s t → IsRegistered s → IsRegistered t
Registers-IsRegistered s t made p =
    subst (λ r. IsRegister r t.instances) (sym made.register)
      (with_raffle-IsRegister (register_of s) s.instances t.instances made.address made.fresh
        made.stored made.fits made.grows p)
