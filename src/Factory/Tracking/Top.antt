-- ===== src/Factory/Tracking/Top.antt =====
-- The table that a leaderboard shows the top of.
use mathlib.Core.Path.{subst}
use mathlib.Core.List.{Perm}
use tikka_contracts.Prelude.{
  ℕ, zero, suc, min, ◌≡◌, refl, sym, ap, ◌∙◌, ◌==◌, if◌then◌else◌, [], ◌∷◌, ◌++◌, length, All,
  arith,
}
use tikka_contracts.Prelude.Int.{ℤ}
use tikka_contracts.Shared.Types.{Address}
use tikka_contracts.Factory.State.{Leaderboard}
use tikka_contracts.Factory.Tracking.{
  leaderboard_cap, drop_entry, select_largest, sort_board, take_upto, upsert_leaderboard,
}
use tikka_contracts.Factory.Tracking.Board.{
  length-select_largest, Below, IsDescending, sort_board-perm, sort_board-IsDescending,
}

abbrev drop_upto : ℕ → Leaderboard → Leaderboard
drop_upto zero board = board
drop_upto (suc n) [] = []
drop_upto (suc n) (entry ∷ board) = drop_upto n board

take_drop : (n : ℕ) (board : Leaderboard) → take_upto n board ++ drop_upto n board ≡ board
take_drop zero board = refl
take_drop (suc n) [] = refl
take_drop (suc n) (entry ∷ board) = ap (◌∷◌ entry) (take_drop n board)

length-take_upto : (n : ℕ) (board : Leaderboard) → length (take_upto n board) ≡ min (length board) n
length-take_upto zero board = omega arith
length-take_upto (suc n) [] = omega arith
length-take_upto (suc n) (entry ∷ board) = omega (arith, length-take_upto n board)

Below-take_upto :
    (n : ℕ) (metric : ℤ) (board : Leaderboard)
    → Below metric board
    → Below metric (take_upto n board)
Below-take_upto zero metric board h = tt
Below-take_upto (suc n) metric [] h = tt
Below-take_upto (suc n) metric (entry ∷ board) h = (h.0, Below-take_upto n metric board h.1)

Below-drop_upto :
    (n : ℕ) (metric : ℤ) (board : Leaderboard)
    → Below metric board
    → Below metric (drop_upto n board)
Below-drop_upto zero metric board h = h
Below-drop_upto (suc n) metric [] h = tt
Below-drop_upto (suc n) metric (entry ∷ board) h = Below-drop_upto n metric board h.1

take_upto-IsDescending :
    (n : ℕ) (board : Leaderboard) → IsDescending board → IsDescending (take_upto n board)
take_upto-IsDescending zero board h = tt
take_upto-IsDescending (suc n) [] h = tt
take_upto-IsDescending (suc n) (entry ∷ board) h =
    (Below-take_upto n entry.1 board h.0, take_upto-IsDescending n board h.1)

-- What is cut off is below all that is kept.
take_upto-above :
    (n : ℕ) (board : Leaderboard)
    → IsDescending board
    → All (λ entry. Below entry.1 (drop_upto n board)) (take_upto n board)
take_upto-above zero board h = tt
take_upto-above (suc n) [] h = tt
take_upto-above (suc n) (entry ∷ board) h =
    (Below-drop_upto n entry.1 board h.0, take_upto-above n board h.1)

-- `board` shows the best of `table`, best first, and all of it where it has at most ten entries.
pub record IsTop (table board : Leaderboard) : Type 0 where
  pub hidden : Leaderboard
  pub all : Perm table (board ++ hidden)
  pub descending : IsDescending board
  pub above : All (λ entry. Below entry.1 hidden) board
  pub size : length board ≡ min (length table) 10

-- The entries of the other raffles.
abbrev pub others : Address → Leaderboard → Leaderboard
others raffle [] = []
others raffle ((address, metric) ∷ board) =
    if address == raffle then others raffle board else (address, metric) ∷ others raffle board

drop_entry-others :
    (raffle : Address) (board : Leaderboard) → drop_entry raffle board ≡ others raffle board
drop_entry-others raffle [] = refl
drop_entry-others raffle (entry ∷ board) =
    ap (λ rest. if entry.0 == raffle then rest else entry ∷ rest) (drop_entry-others raffle board)

length-sort_board : (n : ℕ) (board : Leaderboard) → length (sort_board n board) ≡ length board
unfolding sort_board
length-sort_board zero board = refl
length-sort_board (suc n) [] = refl
length-sort_board (suc n) (left ∷ board) =
    ap suc (length-sort_board n (select_largest left board).1 ∙ length-select_largest left board)

upsert_leaderboard_lem :
    (raffle : Address) (metric : ℤ) (board : Leaderboard)
    → IsTop
        (drop_entry raffle board ++ (raffle, metric) ∷ [])
        (upsert_leaderboard raffle metric board)
unfolding upsert_leaderboard
upsert_leaderboard_lem raffle metric board = record {
  hidden = drop_upto leaderboard_cap sorted;
  all =
      subst (Perm next) (sym (take_drop leaderboard_cap sorted))
        (sort_board-perm (length next) next);
  descending = take_upto-IsDescending leaderboard_cap sorted in_order;
  above = take_upto-above leaderboard_cap sorted in_order;
  size =
      omega (arith, length-take_upto leaderboard_cap sorted, length-sort_board (length next) next);
}
  where
    next : Leaderboard
    next = drop_entry raffle board ++ (raffle, metric) ∷ []

    sorted : Leaderboard
    sorted = sort_board (length next) next

    in_order : IsDescending sorted
    in_order = sort_board-IsDescending (length next) next (omega arith)

-- An update of a leaderboard leaves the ten best, best first, of the entries that the other raffles had and
-- of the new entry; all of them, where they are no more than ten. The old entry of the raffle is gone.
pub upsert_leaderboard-IsTop :
    (raffle : Address) (metric : ℤ) (board : Leaderboard)
    → IsTop (others raffle board ++ (raffle, metric) ∷ []) (upsert_leaderboard raffle metric board)
upsert_leaderboard-IsTop raffle metric board =
    subst (λ kept. IsTop (kept ++ (raffle, metric) ∷ []) (upsert_leaderboard raffle metric board))
      (drop_entry-others raffle board) (upsert_leaderboard_lem raffle metric board)
