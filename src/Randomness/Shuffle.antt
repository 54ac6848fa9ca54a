-- ===== src/Randomness/Shuffle.antt =====
-- `OracleSeedWinnerSelection::select_winner_indices` of
-- contracts/raffle-instance/src/randomness.rs: a partial Fisher-Yates shuffle of the ticket indices,
-- whose deck is the identity overridden by a log of swaps. The rejection loop takes fuel.
pub mod Deck
pub mod Selection
use tikka_contracts.Prelude.{
  ℕ, zero, suc, ◌+◌, ◌-◌, ◌%◌, ◌^◌, min, Option, none, some, List, [], ◌∷◌, ◌++◌, ◌==◌, ◌||◌,
  if◌then◌else◌,
}
use tikka_contracts.Randomness.Rejection.{sample, largest_multiple}

abbrev pub Swaps : Type 0
Swaps = List (ℕ × ℕ)

-- The value at a position: that of the first entry for it in the log, else the position itself.
unfoldable pub resolve : Swaps → ℕ → ℕ
resolve [] position = position
resolve ((pos, val) ∷ swaps) position = if pos == position then val else resolve swaps position

-- `swaps.set(i, (r, last_actual))` at the first entry for `r`, or `push_back`
unfoldable pub record_swap : Swaps → ℕ → ℕ → Swaps
record_swap [] r last_actual = (r, last_actual) ∷ []
record_swap ((pos, val) ∷ swaps) r last_actual =
    if pos == r then (r, last_actual) ∷ swaps else (pos, val) ∷ record_swap swaps r last_actual

-- The variables of the outer loop.
pub record DrawState : Type 0 where
  pub remaining : ℕ
  pub current_seed : ℕ
  pub swaps : Swaps
  pub indices : List ℕ

-- One round, after the rejection loop has left `candidate` in `current_seed`.
unfoldable pub take_candidate : DrawState → ℕ → DrawState
unfolding resolve record_swap
take_candidate d candidate =
    let r = candidate % d.remaining in
    let last = d.remaining - 1 in
    record {
      remaining = d.remaining - 1;
      current_seed = candidate;
      swaps = record_swap d.swaps r (resolve d.swaps last);
      indices = d.indices ++ (resolve d.swaps r % 2 ^ 32) ∷ [];
    }

-- `for _ in 0..effective_count`; `none` if a rejection loop runs out of fuel.
unfoldable pub draw_rounds : ℕ → ℕ → DrawState → Option DrawState
unfolding take_candidate
draw_rounds fuel zero d = some d
draw_rounds fuel (suc rounds) d = elim (sample fuel (largest_multiple d.remaining) d.current_seed) [
  | none ↦ none
  | some candidate ↦ draw_rounds fuel rounds (take_candidate d candidate)
]

abbrev pub start_draw : ℕ → ℕ → DrawState
start_draw seed total_tickets = record {
  remaining = total_tickets;
  current_seed = seed;
  swaps = [];
  indices = [];
}

abbrev drawn_indices : Option DrawState → Option (List ℕ)
drawn_indices none = none
drawn_indices (some d) = some d.indices

unfoldable pub select_winner_indices : ℕ → ℕ → ℕ → ℕ → Option (List ℕ)
unfolding draw_rounds sample largest_multiple
select_winner_indices fuel seed total_tickets winner_count =
    if total_tickets == 0 || winner_count == 0
    then some []
    else drawn_indices
        (draw_rounds fuel (min winner_count total_tickets) (start_draw seed total_tickets))
