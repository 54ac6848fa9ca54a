-- ===== src/Instance/Phase.antt =====
-- The lock of a draw (`DrawingLock`) beside the status of the raffle: in `Drawing` the lock is set.
pub mod Draws
pub mod Sales
pub mod Payouts
pub mod Settings
use tikka_contracts.Prelude.{Bool, true, false, Option, none, some, ◌≡◌}
use tikka_contracts.Shared.Status.{RaffleStatus, drawing, status_eq}
use tikka_contracts.Instance.State.{Raffle, Contract}

abbrev pub in_drawing : Option Raffle → Bool
in_drawing none = false
in_drawing (some raffle) = status_eq raffle.status drawing

-- Whoever stored `Drawing` has set the lock.
abbrev pub IsPhased : Contract → Type 0
IsPhased s = in_drawing s.raffle ≡ true → s.drawing_lock ≡ true
