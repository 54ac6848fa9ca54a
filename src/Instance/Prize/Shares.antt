-- ===== src/Instance/Prize/Shares.antt =====
-- The sum of the open shares of a prize, which the tiers of `calculate_tier_prize` are compared with.
use native.Mathlib.Nat.{div-mul-le_self, mul-add}
use mathlib.Core.Option.{some-injective}
use tikka_contracts.Prelude.{
  ap, Bool, true, false, if◌then◌else◌, ℕ, zero, suc, ◌+◌, ◌*◌, ◌/◌, ◌≤◌, ◌≡◌, refl, sym, List, [],
  ◌∷◌, some, arith, get_elem?,
}
use tikka_contracts.Shared.Validate.Accepts.{sum}
use tikka_contracts.Instance.State.{Winner}

-- The shares of the winners who have not claimed, each rounded down.
abbrev pub shares_owed : ℕ → List ℕ → List Winner → ℕ
shares_owed amount [] winners = 0
shares_owed amount (bp ∷ bps) [] = 0
shares_owed amount (bp ∷ bps) (w ∷ winners) =
    (if w.claimed then 0 else amount * bp / 10_000) + shares_owed amount bps winners

-- Together they are no more than the basis points of all tiers.
pub shares_owed_le :
    (amount : ℕ) (bps : List ℕ) (winners : List Winner)
    → 10_000 * shares_owed amount bps winners ≤ amount * sum bps
shares_owed_le amount [] winners = omega arith
shares_owed_le amount (bp ∷ bps) [] = omega arith
shares_owed_le amount (bp ∷ bps) (w ∷ winners) = step w.claimed (shares_owed_le amount bps winners)
  where
    step :
        (b : Bool)
        → 10_000 * shares_owed amount bps winners ≤ amount * sum bps
        → 10_000 * ((if b then 0 else amount * bp / 10_000) + shares_owed amount bps winners)
          ≤ amount * (bp + sum bps)
    step true ih = omega (arith, ih, mul-add amount bp (sum bps))
    step false ih =
        omega (arith, ih, mul-add amount bp (sum bps), div-mul-le_self (amount * bp) 10_000)

-- The basis points of the tiers from the one at the position on.
abbrev pub from : ℕ → List ℕ → List ℕ
from zero bps = bps
from (suc i) [] = []
from (suc i) (bp ∷ bps) = from i bps

pub shares_owed-skip :
    (amount i : ℕ) (bps : List ℕ) (w : Winner) (winners : List Winner)
    → w.claimed ≡ true
    → shares_owed amount (from (suc i) bps) winners ≡ shares_owed amount (from i bps) (w ∷ winners)
shares_owed-skip amount zero [] w winners e = refl
shares_owed-skip amount zero (bp ∷ bps) w winners e = ground (arith, e)
shares_owed-skip amount (suc i) [] w winners e = refl
shares_owed-skip amount (suc i) (bp ∷ bps) w winners e = shares_owed-skip amount i bps w winners e

pub shares_owed-add :
    (amount i : ℕ) (bps : List ℕ) (w : Winner) (winners : List Winner) {bp : ℕ}
    → w.claimed ≡ false
    → get_elem? bps i ≡ some bp
    → amount * bp / 10_000 + shares_owed amount (from (suc i) bps) winners
      ≡ shares_owed amount (from i bps) (w ∷ winners)
shares_owed-add amount i [] w winners e f = cc
shares_owed-add amount zero (x ∷ bps) w winners e f =
    rw e
      (ap (λ k. amount * k / 10_000 + shares_owed amount bps winners) (sym (some-injective _ _ f)))
shares_owed-add amount (suc i) (x ∷ bps) w winners e f = shares_owed-add amount i bps w winners e f
