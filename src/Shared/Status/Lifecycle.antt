-- ===== src/Shared/Status/Lifecycle.antt =====
-- What the transition table of a raffle's status allows.
use tikka_contracts.Prelude.{ℕ, ◌<◌, ◌≤◌, ◌+◌, ◌≡◌, refl, ap, ◌↔◌, true, false, arith}
use tikka_contracts.Shared.Status.{
  RaffleStatus, pending_prize, active, drawing, finalized, cancelled, failed, claimed, status_eq,
  is_terminal, can_transition_to,
}

-- `==` decides equality.
pub status_eq_iff : (s t : RaffleStatus) → (status_eq s t ≡ true) ↔ (s ≡ t)
unfolding status_eq
status_eq_iff s t = ground arith

-- The number of transitions that can still lie ahead.
pub ahead : RaffleStatus → ℕ
ahead pending_prize = 4
ahead active = 3
ahead drawing = 2
ahead finalized = 1
ahead _ = 0

-- Every allowed transition leaves fewer of them ahead.
pub can_transition_to-ahead :
    (s t : RaffleStatus) → can_transition_to s t ≡ true → ahead t < ahead s
unfolding can_transition_to ahead
can_transition_to-ahead s t h = ground arith

-- A status is terminal exactly when it allows no transition.
pub is_terminal_iff :
    (s : RaffleStatus)
    → (is_terminal s ≡ true) ↔ ((t : RaffleStatus) → can_transition_to s t ≡ false)
unfolding is_terminal can_transition_to
is_terminal_iff pending_prize = ((λ h. cc), λ h. cc (h active))
is_terminal_iff active = ((λ h. cc), λ h. cc (h drawing))
is_terminal_iff drawing = ((λ h. cc), λ h. cc (h finalized))
is_terminal_iff finalized = ((λ h. cc), λ h. cc (h claimed))
is_terminal_iff cancelled = ((λ h t. ground arith), λ h. refl)
is_terminal_iff failed = ((λ h t. ground arith), λ h. refl)
is_terminal_iff claimed = ((λ h t. ground arith), λ h. refl)

-- A run of transitions: `Run s n t` for n of them from s to t.
pub data Run (s : RaffleStatus) : ℕ → RaffleStatus → Type 0 where
  stay : {n : ℕ} → n ≡ 0 → Run s n s
  move :
      {m n : ℕ} {t u : RaffleStatus}
      → Run s m t
      → can_transition_to t u ≡ true
      → n ≡ m + 1
      → Run s n u

Run-ahead : {s t : RaffleStatus} {n : ℕ} → Run s n t → n + ahead t ≤ ahead s
Run-ahead (stay e) = omega arith
Run-ahead (move {t = t} {u = u} r h e) = omega (arith, Run-ahead r, can_transition_to-ahead t u h)

ahead-le : (s : RaffleStatus) → ahead s ≤ 4
unfolding ahead
ahead-le s = ground arith

-- No run has more than four transitions, and none that makes a transition ends where it began.
pub Run-bounded : {s t : RaffleStatus} {n : ℕ} → Run s n t → (n ≤ 4) × (s ≡ t → n ≡ 0)
Run-bounded {s = s} {t = t} r =
    (omega (arith, Run-ahead r, ahead-le s), λ e. omega (arith, Run-ahead r, ap ahead e))
