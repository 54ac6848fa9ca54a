-- ===== src/Prelude/Outcome.antt =====
-- The outcome of a contract call. An `Err` and a trap both roll every change back, so neither
-- carries a state.
use mathlib.Core.Path.{◌≡◌, refl, subst}
use mathlib.Core.Bool.{Bool, true, false}
use mathlib.Core.Option.{Option, none, some}
use tikka_contracts.Prelude.Tests.{if◌then◌else◌}

-- `trap` stands for a panic of the contract or of the host.
pub data Outcome {ℓ} (E : Type 0) (A : Type ℓ) : Type ℓ where
  ok : A → Outcome E A
  err : E → Outcome E A
  trap : Outcome E A

module _ {E : Type 0} where
  infixl 5 ◌>>=◌ ◌>>◌
  unfoldable pub ◌>>=◌ {ℓ κ} :
      {A : Type ℓ} {B : Type κ} → Outcome E A → (A → Outcome E B) → Outcome E B
  ok a >>= f = f a
  err e >>= f = err e
  trap >>= f = trap

  abbrev pub ◌>>◌ {ℓ} : {B : Type ℓ} → Outcome E (Unit {0}) → Outcome E B → Outcome E B
  m >> k = m >>= λ _. k

  -- `if test { return Err(e) }`
  abbrev pub reject_if : Bool → E → Outcome E (Unit {0})
  reject_if true e = err e
  reject_if false e = ok tt

  -- `assert!`, and what the host demands
  abbrev pub trap_unless : Bool → Outcome E (Unit {0})
  trap_unless true = ok tt
  trap_unless false = trap

  -- `.ok_or(e)?`
  abbrev pub ok_or {ℓ} : {A : Type ℓ} → Option A → E → Outcome E A
  ok_or none e = err e
  ok_or (some a) e = ok a

  abbrev pub or_trap {ℓ} : {A : Type ℓ} → Option A → Outcome E A
  or_trap none = trap
  or_trap (some a) = ok a

  -- What holds of the value of a call that succeeds.
  abbrev pub Ensures {ℓ κ} : {A : Type ℓ} → (A → Type κ) → Outcome E A → Type κ
  Ensures P (ok a) = P a
  Ensures P (err e) = Unit
  Ensures P trap = Unit

  ok-injective {ℓ} : {A : Type ℓ} {a b : A} → ◌≡◌ {A = Outcome E A} (ok a) (ok b) → a ≡ b
  ok-injective e = cc

  pub Ensures-ok {ℓ κ} :
      {A : Type ℓ} (P : A → Type κ) (m : Outcome E A) {a : A} → Ensures P m → m ≡ ok a → P a
  Ensures-ok P (ok b) h e = subst P (ok-injective e) h
  Ensures-ok P (err x) h e = cc
  Ensures-ok P trap h e = cc

-- `m` returns only values with `P`: one rule for each way to build a call.
pub record Returns {ℓ κ} {E : Type 0} {A : Type ℓ} (P : A → Type κ) (m : Outcome E A)
    : Type (ℓ ⊔ κ) where
  pub at : {a : A} → m ≡ ok a → P a

module _ {κ} {E : Type 0} where
  pub Returns-ok {ℓ} : {A : Type ℓ} {P : A → Type κ} (a : A) → P a → Returns {E = E} P (ok a)
  Returns-ok {P = P} a h = record { at = λ e. subst P (ok-injective e) h }

  pub Returns-err {ℓ} : {A : Type ℓ} {P : A → Type κ} (e : E) → Returns {A = A} P (err e)
  Returns-err e = record { at = λ h. cc }

  pub Returns-trap {ℓ} : {A : Type ℓ} {P : A → Type κ} → Returns {E = E} {A = A} P trap
  Returns-trap = record { at = λ h. cc }

  pub Returns-if {ℓ} :
      {A : Type ℓ} {P : A → Type κ} (b : Bool) (m n : Outcome E A)
      → (b ≡ true → Returns P m)
      → (b ≡ false → Returns P n)
      → Returns P (if b then m else n)
  Returns-if true m n hm hn = hm refl
  Returns-if false m n hm hn = hn refl

  pub Returns-bind {ℓ μ} :
      {A : Type ℓ} {B : Type μ} {P : B → Type κ} (m : Outcome E A) (f : A → Outcome E B)
      → ((a : A) → m ≡ ok a → Returns P (f a))
      → Returns P (m >>= f)
  unfolding ◌>>=◌
  Returns-bind (ok a) f h = h a refl
  Returns-bind (err e) f h = Returns-err e
  Returns-bind trap f h = Returns-trap

-- The rest of a block may use what its first call returns.
pub Returns-then {ℓ κ μ ν} :
    {E : Type 0} {A : Type ℓ} {B : Type μ} {P : B → Type κ} {Q : A → Type ν} {m : Outcome E A}
    (f : A → Outcome E B)
    → Returns Q m
    → ((a : A) → Q a → Returns P (f a))
    → Returns P (m >>= f)
Returns-then f hm hf = Returns-bind _ f (λ a e. hf a (hm.at e))

pub Returns-Ensures {ℓ κ} :
    {E : Type 0} {A : Type ℓ} {P : A → Type κ} (m : Outcome E A) → Ensures P m → Returns P m
Returns-Ensures (ok a) h = Returns-ok a h
Returns-Ensures (err e) h = Returns-err e
Returns-Ensures trap h = Returns-trap

-- What the success of a test or a lookup tells.
pub ok_or-eq-ok {ℓ} :
    {E : Type 0} {A : Type ℓ} {a : A} (m : Option A) (e : E) → ok_or m e ≡ ok a → m ≡ some a
ok_or-eq-ok none e h = cc
ok_or-eq-ok (some b) e h = cc

pub reject_if-eq-ok :
    {E : Type 0} {a : Unit {0}} (b : Bool) (e : E) → reject_if b e ≡ ok a → b ≡ false
reject_if-eq-ok true e h = cc
reject_if-eq-ok false e h = refl

pub ruleset returns_rules = (Returns-ok, Returns-err, Returns-trap, Returns-if, Returns-bind)
