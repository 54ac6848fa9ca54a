-- ===== src/Randomness/Shuffle/Selection.antt =====
-- The winner selection as a whole: it ends, and draws the right number of different tickets.
use tikka_contracts.Prelude.{
  ℕ, zero, suc, ◌+◌, ◌^◌, ◌≤◌, ◌<◌, ◌≡◌, refl, ◌∙◌, min, some, List, [], arith, ◌==◌, ◌||◌, All,
  IsDistinct, length, Bool-cases, true, inl, inr, ltb, lt→ltb,
}
use tikka_contracts.Randomness.Rejection.{sample, largest_multiple}
use tikka_contracts.Randomness.Rejection.Escape.{sample_total, largest_multiple_bounds}
use tikka_contracts.Randomness.Shuffle.{
  resolve, DrawState, take_candidate, draw_rounds, start_draw, select_winner_indices,
}
use tikka_contracts.Randomness.Shuffle.Deck.{IsDeck, take_candidate-IsDeck}

-- After the rounds the deck is still one, and has as many positions less.
record IsDrawn (n rounds : ℕ) (d e : DrawState) : Type 0 where
  deck : IsDeck n e
  rest : e.remaining + rounds ≡ d.remaining

-- A round whose rejection loop ends goes on with the candidate.
draw_rounds_step :
    (fuel rounds : ℕ) (d : DrawState) (c : ℕ)
    → sample fuel (largest_multiple d.remaining) d.current_seed ≡ some c
    → draw_rounds fuel (suc rounds) d ≡ draw_rounds fuel rounds (take_candidate d c)
unfolding draw_rounds
draw_rounds_step fuel rounds d c found = rw (found, draw_rounds)

module _ (fuel n : ℕ) (small : n ≤ 100_000) where
  draw_rounds_total :
      (rounds : ℕ) (d : DrawState)
      → IsDeck n d
      → rounds ≤ d.remaining
      → d.current_seed < 2 ^ 64
      → (e : DrawState) × (draw_rounds (suc (suc fuel)) rounds d ≡ some e) × IsDrawn n rounds d e
  unfolding draw_rounds
  draw_rounds_total zero d v h s = (d, refl, record { deck = v; rest = omega arith })
  draw_rounds_total (suc rounds) d v h s =
      let (c, found, under) =
        sample_total fuel d.remaining d.current_seed (omega arith) (omega (arith, v.fits)) s in
      let (e, ends, drawn) =
        draw_rounds_total rounds (take_candidate d c)
          (take_candidate-IsDeck n (omega arith) d v (omega arith) c) (omega arith)
          (omega (arith, largest_multiple_bounds d.remaining)) in
      (
        e,
        draw_rounds_step _ rounds d c found ∙ ends,
        record { deck = drawn.deck; rest = omega (arith, drawn.rest) },
      )

start_draw-IsDeck : (seed n : ℕ) → IsDeck n (start_draw seed n)
unfolding resolve
start_draw-IsDeck seed n = record {
  fits = omega arith;
  in_range = λ p h. h;
  injective = λ p q hp hq ne. ne;
  fresh = λ p h. tt;
  drawn_distinct = tt;
  drawn_in_range = tt;
}

-- For at most 100_000 tickets and any 64-bit seed, with two rounds of fuel or more for the rejection
-- loop, the selection ends with min(winner_count, total_tickets) indices; they are pairwise
-- different, and each is below total_tickets.
pub select_winner_indices_total :
    (fuel seed total_tickets winner_count : ℕ)
    → total_tickets ≤ 100_000
    → seed < 2 ^ 64
    → (indices : List ℕ) × (select_winner_indices (suc (suc fuel)) seed total_tickets winner_count
        ≡ some indices)
      × (length indices ≡ min winner_count total_tickets)
      × IsDistinct indices
      × All (λ i. i < total_tickets) indices
unfolding select_winner_indices
select_winner_indices_total fuel seed total count small s =
    elim (Bool-cases (total == 0 || count == 0)) [
      | inl empty ↦ ([], rw empty, ground arith, tt, tt)
      | inr some_left ↦
          let (e, ends, drawn) =
            draw_rounds_total fuel total small (min count total) (start_draw seed total)
              (start_draw-IsDeck seed total) (omega arith) s in
          (
            e.indices,
            rw (some_left, ends),
            omega (arith, drawn.rest, drawn.deck.fits),
            drawn.deck.drawn_distinct,
            drawn.deck.drawn_in_range,
          )
    ]

-- A seed that lies more than `remaining` below 2^64 is never redrawn: every round of the selection
-- reduces the same seed, only modulo one less each time.
pub draw_rounds_keep_seed :
    (fuel rounds : ℕ) (d : DrawState)
    → d.current_seed + d.remaining < 2 ^ 64
    → rounds ≤ d.remaining
    → (e : DrawState) × (draw_rounds (suc fuel) rounds d ≡ some e)
      × (e.current_seed ≡ d.current_seed)
unfolding draw_rounds
draw_rounds_keep_seed fuel zero d h r = (d, refl, refl)
draw_rounds_keep_seed fuel (suc rounds) d h r =
    let accepted : ltb d.current_seed (largest_multiple d.remaining) ≡ true =
      lt→ltb _ _ (omega (arith, largest_multiple_bounds d.remaining)) in
    let found : sample (suc fuel) (largest_multiple d.remaining) d.current_seed
        ≡ some d.current_seed =
      unfold sample in rw accepted in
    let (e, ends, same) =
      draw_rounds_keep_seed fuel rounds (take_candidate d d.current_seed) (omega arith)
        (omega arith) in
    (e, draw_rounds_step _ rounds d d.current_seed found ∙ ends, same)
