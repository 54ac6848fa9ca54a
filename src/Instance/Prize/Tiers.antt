-- ===== src/Instance/Prize/Tiers.antt =====
-- The prizes of the tiers against the prize amount.
use tikka_contracts.Prelude.{not, if◌then◌else◌, ℕ, ◌+◌, ◌*◌, ◌/◌, ◌≡◌, List, some, get_elem?}
use tikka_contracts.Prelude.Int.{ℤ, pos, checked_add}
use tikka_contracts.Prelude.Outcome.{◌>>=◌, ok_or}
use tikka_contracts.Shared.Status.{finalized, status_eq}
use tikka_contracts.Instance.State.{Raffle, Call, arithmetic_overflow}
use tikka_contracts.Instance.Prize.{calculate_tier_prize}
use tikka_contracts.Instance.Prize.Shares.{shares_owed}

-- What a tier is paid: its basis points of the prize, rounded down.
record IsShare (amount : ℕ) (bps : List ℕ) (i : ℕ) (v : ℤ) : Type 0 where
  bp : ℕ
  listed : get_elem? bps i ≡ some bp
  value : v ≡ pos (amount * bp / 10_000)

abbrev add_prize : Raffle → ℕ → ℤ → Call ℤ
add_prize raffle i v = do
  prize ← calculate_tier_prize raffle i
  ok_or (checked_add v prize) arithmetic_overflow

-- What is owed up to a tier, such that the shares behind it make up `whole`.
record Leaves (whole rest : ℕ) (v : ℤ) : Type 0 where
  total : ℕ
  value : v ≡ pos total
  adds_up : total + rest ≡ whole

-- What is owed of a prize: all of it before the raffle is finalized, the open shares afterwards.
abbrev pub prize_owed : Raffle → ℕ → ℕ
prize_owed raffle amount =
    if not raffle.prize_deposited
    then 0
    else if not (status_eq raffle.status finalized)
    then amount
    else shares_owed amount raffle.prizes raffle.winners
