-- ===== src/Shared/Status.antt =====
-- `RaffleStatus` of contracts/raffle-shared/src/lib.rs: the lifecycle of a raffle.
pub mod Lifecycle
use tikka_contracts.Prelude.{Bool, true, false, not, ◌&&◌, ◌||◌, List, [], ◌∷◌, if◌then◌else◌}

pub data RaffleStatus : Type 0 where
  pending_prize active drawing finalized cancelled failed claimed : RaffleStatus

-- The derived `==`.
unfoldable pub status_eq : RaffleStatus → RaffleStatus → Bool
status_eq pending_prize pending_prize = true
status_eq active active = true
status_eq drawing drawing = true
status_eq finalized finalized = true
status_eq cancelled cancelled = true
status_eq failed failed = true
status_eq claimed claimed = true
status_eq _ _ = false

unfoldable pub is_terminal : RaffleStatus → Bool
is_terminal cancelled = true
is_terminal failed = true
is_terminal claimed = true
is_terminal _ = false

unfoldable pub allowed_targets : RaffleStatus → List RaffleStatus
allowed_targets pending_prize = active ∷ []
allowed_targets active = drawing ∷ failed ∷ cancelled ∷ []
allowed_targets drawing = finalized ∷ cancelled ∷ []
allowed_targets finalized = claimed ∷ []
allowed_targets _ = []

-- `contains` of a slice
contains : List RaffleStatus → RaffleStatus → Bool
unfolding status_eq
contains [] target = false
contains (s ∷ ss) target = status_eq s target || contains ss target

unfoldable pub can_transition_to : RaffleStatus → RaffleStatus → Bool
unfolding status_eq allowed_targets contains
can_transition_to status target =
    if status_eq status target then false else contains (allowed_targets status) target

unfoldable pub can_internal_revert_to : RaffleStatus → RaffleStatus → Bool
unfolding status_eq
can_internal_revert_to status target = status_eq status drawing && status_eq target active

unfoldable pub all : List RaffleStatus
all = pending_prize ∷ active ∷ drawing ∷ finalized ∷ cancelled ∷ failed ∷ claimed ∷ []
