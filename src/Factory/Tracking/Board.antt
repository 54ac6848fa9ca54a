-- ===== src/Factory/Tracking/Board.antt =====
-- What an update of a leaderboard leaves: the ten best entries of the updated table, best first.
use mathlib.Core.List.{Perm}
use mathlib.Core.List.Perm
use tikka_contracts.Prelude.{
  ℕ, zero, suc, ◌≤◌, Bool, true, false, ◌≡◌, refl, ap, [], ◌∷◌, if◌then◌else◌, length, All, arith,
}
use tikka_contracts.Prelude.Int.{ℤ, ◌≤ℤ◌, ltb_ℤ}
use tikka_contracts.Shared.Types.{Address}
use tikka_contracts.Factory.State.{Leaderboard}
use tikka_contracts.Factory.Tracking.{select_largest, sort_board}

abbrev pub Below : ℤ → Leaderboard → Type 0
Below metric board = All (λ entry. entry.1 ≤ℤ metric) board

abbrev pub IsDescending : Leaderboard → Type 0
IsDescending [] = Unit
IsDescending (entry ∷ board) = Below entry.1 board × IsDescending board

select_largest-perm :
    (left : Address × ℤ) (board : Leaderboard)
    → Perm (left ∷ board) ((select_largest left board).0 ∷ (select_largest left board).1)
unfolding select_largest
select_largest-perm left [] = Perm.rfl
select_largest-perm left (right ∷ board) =
    step (λ l. select_largest-perm l board) (ltb_ℤ left.1 right.1)
  where
    step :
        ((l : Address × ℤ)
          → Perm (l ∷ board) ((select_largest l board).0 ∷ (select_largest l board).1))
        → (b : Bool)
        → Perm (left ∷ right ∷ board) (
            (select_largest (if b then right else left) board).0
            ∷ (if b then left else right)
            ∷ (select_largest (if b then right else left) board).1)
    step p true = Perm.trans (Perm.cons left (p right)) (Perm.swap _ left _)
    step p false =
        Perm.trans (Perm.swap right left board)
          (Perm.trans (Perm.cons right (p left)) (Perm.swap _ right _))

-- An entry and a list below it.
abbrev Leads : (Address × ℤ) × Leaderboard → Type 0
Leads r = Below r.0.1 r.1

-- The entry that is kept is at least as large as all others.
select_largest-Leads :
    (left : Address × ℤ) (board : Leaderboard)
    → (left.1 ≤ℤ (select_largest left board).0.1) × Leads (select_largest left board)
unfolding select_largest
select_largest-Leads left [] = (omega arith, tt)
select_largest-Leads left (right ∷ board) =
    step (λ l. select_largest-Leads l board) (ltb_ℤ left.1 right.1) refl
  where
    step :
        ((l : Address × ℤ) → (l.1 ≤ℤ (select_largest l board).0.1) × Leads (select_largest l board))
        → (b : Bool) → ltb_ℤ left.1 right.1 ≡ b
        → (left.1 ≤ℤ (select_largest (if b then right else left) board).0.1)
          × Leads (
            (select_largest (if b then right else left) board).0,
            (if b then left else right) ∷ (select_largest (if b then right else left) board).1,
          )
    step p true e = (ground (arith, e, (p right).0), (ground (arith, e, (p right).0), (p right).1))
    step p false e = ((p left).0, (ground (arith, e, (p left).0), (p left).1))

Below-select_largest :
    (metric : ℤ) (left : Address × ℤ) (board : Leaderboard)
    → left.1 ≤ℤ metric
    → Below metric board
    → ((select_largest left board).0.1 ≤ℤ metric) × Below metric (select_largest left board).1
unfolding select_largest
Below-select_largest metric left [] h k = (h, tt)
Below-select_largest metric left (right ∷ board) h k =
    step (λ l e. Below-select_largest metric l board e k.1) (ltb_ℤ left.1 right.1)
  where
    step :
        ((l : Address × ℤ)
          → l.1 ≤ℤ metric
          → ((select_largest l board).0.1 ≤ℤ metric) × Below metric (select_largest l board).1)
        → (b : Bool)
        → ((select_largest (if b then right else left) board).0.1 ≤ℤ metric)
          × Below metric
              ((if b then left else right) ∷ (select_largest (if b then right else left) board).1)
    step p true = ((p right k.0).0, (h, (p right k.0).1))
    step p false = ((p left h).0, (k.0, (p left h).1))

pub length-select_largest :
    (left : Address × ℤ) (board : Leaderboard) → length (select_largest left board).1 ≡ length board
unfolding select_largest
length-select_largest left [] = refl
length-select_largest left (right ∷ board) =
    ap suc (length-select_largest (if ltb_ℤ left.1 right.1 then right else left) board)

pub sort_board-perm : (n : ℕ) (board : Leaderboard) → Perm board (sort_board n board)
unfolding sort_board
sort_board-perm zero board = Perm.rfl
sort_board-perm (suc n) [] = Perm.rfl
sort_board-perm (suc n) (left ∷ board) =
    Perm.trans (select_largest-perm left board)
      (Perm.cons (select_largest left board).0 (sort_board-perm n (select_largest left board).1))

Below-sort_board :
    (n : ℕ) (metric : ℤ) (board : Leaderboard)
    → Below metric board
    → Below metric (sort_board n board)
unfolding sort_board
Below-sort_board zero metric board h = h
Below-sort_board (suc n) metric [] h = tt
Below-sort_board (suc n) metric (left ∷ board) h =
    (kept.0, Below-sort_board n metric (select_largest left board).1 kept.1)
  where
    kept : ((select_largest left board).0.1 ≤ℤ metric) × Below metric (select_largest left board).1
    kept = Below-select_largest metric left board h.0 h.1

pub sort_board-IsDescending :
    (n : ℕ) (board : Leaderboard) → length board ≤ n → IsDescending (sort_board n board)
unfolding sort_board
sort_board-IsDescending zero [] h = tt
sort_board-IsDescending zero (left ∷ board) h = absurd (omega arith)
sort_board-IsDescending (suc n) [] h = tt
sort_board-IsDescending (suc n) (left ∷ board) h = (
  Below-sort_board n (select_largest left board).0.1 (select_largest left board).1
      (select_largest-Leads left board).1,
  sort_board-IsDescending n (select_largest left board).1
      (omega (arith, length-select_largest left board)),
)
