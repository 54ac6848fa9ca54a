-- ===== src/Factory/Tracking/Once.antt =====
-- How often a leaderboard lists a raffle.
use tikka_contracts.Prelude.{
  ℕ, zero, suc, ◌+◌, ◌≤◌, Bool, true, false, ◌≡◌, refl, ap, ◌∙◌, [], ◌∷◌, ◌++◌, ◌==◌, if◌then◌else◌,
  length, arith,
}
use tikka_contracts.Prelude.Int.{ℤ, ltb_ℤ}
use tikka_contracts.Shared.Types.{Address}
use tikka_contracts.Factory.State.{Leaderboard}
use tikka_contracts.Factory.Tracking.{
  leaderboard_cap, drop_entry, select_largest, sort_board, take_upto, upsert_leaderboard,
}

-- The number of entries for a raffle.
abbrev pub entries_for : Address → Leaderboard → ℕ
entries_for raffle [] = 0
entries_for raffle (entry ∷ board) = (if entry.0 == raffle then 1 else 0) + entries_for raffle board

entries_for-select_largest :
    (raffle : Address) (left : Address × ℤ) (board : Leaderboard)
    → entries_for raffle ((select_largest left board).0 ∷ (select_largest left board).1)
      ≡ entries_for raffle (left ∷ board)
unfolding select_largest
entries_for-select_largest raffle left [] = refl
entries_for-select_largest raffle left (right ∷ board) =
    step (λ l. entries_for-select_largest raffle l board) (ltb_ℤ left.1 right.1)
  where
    step :
        ((l : Address × ℤ)
          → entries_for raffle ((select_largest l board).0 ∷ (select_largest l board).1)
            ≡ entries_for raffle (l ∷ board))
        → (b : Bool)
        → entries_for raffle (
            (select_largest (if b then right else left) board).0
            ∷ (if b then left else right)
            ∷ (select_largest (if b then right else left) board).1)
          ≡ entries_for raffle (left ∷ right ∷ board)
    step p true = ground (arith, p right)
    step p false = ground (arith, p left)

entries_for-sort_board :
    (raffle : Address) (n : ℕ) (board : Leaderboard)
    → entries_for raffle (sort_board n board) ≡ entries_for raffle board
unfolding sort_board
entries_for-sort_board raffle zero board = refl
entries_for-sort_board raffle (suc n) [] = refl
entries_for-sort_board raffle (suc n) (left ∷ board) =
    ap (λ k. (if (select_largest left board).0.0 == raffle then 1 else 0) + k)
      (entries_for-sort_board raffle n (select_largest left board).1)
    ∙ entries_for-select_largest raffle left board

entries_for-take_upto :
    (raffle : Address) (n : ℕ) (board : Leaderboard)
    → entries_for raffle (take_upto n board) ≤ entries_for raffle board
entries_for-take_upto raffle zero board = omega arith
entries_for-take_upto raffle (suc n) [] = omega arith
entries_for-take_upto raffle (suc n) (entry ∷ board) =
    ground (arith, entries_for-take_upto raffle n board)

entries_for-drop_entry_self :
    (raffle : Address) (board : Leaderboard) → entries_for raffle (drop_entry raffle board) ≡ 0
entries_for-drop_entry_self raffle [] = refl
entries_for-drop_entry_self raffle (entry ∷ board) =
    ground (arith, entries_for-drop_entry_self raffle board)

entries_for-drop_entry :
    (raffle other : Address) (board : Leaderboard)
    → entries_for other (drop_entry raffle board) ≤ entries_for other board
entries_for-drop_entry raffle other [] = omega arith
entries_for-drop_entry raffle other (entry ∷ board) =
    ground (arith, entries_for-drop_entry raffle other board)

entries_for-append :
    (raffle : Address) (xs ys : Leaderboard)
    → entries_for raffle (xs ++ ys) ≡ entries_for raffle xs + entries_for raffle ys
entries_for-append raffle [] ys = omega arith
entries_for-append raffle (entry ∷ xs) ys = ground (arith, entries_for-append raffle xs ys)

-- An update of a leaderboard that lists every raffle at most once leaves one that does.
pub upsert_leaderboard-once :
    (raffle : Address) (metric : ℤ) (board : Leaderboard)
    → ((r : Address) → entries_for r board ≤ 1)
    → (r : Address) → entries_for r (upsert_leaderboard raffle metric board) ≤ 1
unfolding upsert_leaderboard
upsert_leaderboard-once raffle metric board h r = ground (
  arith,
  entries_for-take_upto r leaderboard_cap (sort_board (length next) next),
  entries_for-sort_board r (length next) next,
  entries_for-append r (drop_entry raffle board) ((raffle, metric) ∷ []),
  entries_for-drop_entry_self raffle board,
  entries_for-drop_entry raffle r board,
  h r,
)
  where
    next : Leaderboard
    next = drop_entry raffle board ++ (raffle, metric) ∷ []
