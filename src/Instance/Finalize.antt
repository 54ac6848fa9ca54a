-- ===== src/Instance/Finalize.antt =====
-- `do_finalize_with_seed`, `resolve_unique_winner` and `clear_quorum_storage` of
-- contracts/raffle-instance/src/helpers.rs. The source keeps the drawn indices under two names and the
-- winners as addresses and as records at once; here each is kept once, and the records are built
-- where the source assigns `raffle.winners`.
use tikka_contracts.Prelude.{
  ℕ, zero, suc, ◌+◌, ◌%◌, Bool, false, ◌||◌, Option, none, some, List, [], ◌∷◌, ◌++◌, ltb, ◌==◌,
  if◌then◌else◌, length, map, not,
}
use tikka_contracts.Prelude.Outcome.{ok, ◌>>=◌, ◌>>◌, reject_if, ok_or, or_trap}
use tikka_contracts.Shared.Types.{Address, Ticket}
use tikka_contracts.Shared.Status.{finalized}
use tikka_contracts.Randomness.Shuffle.{select_winner_indices}
use tikka_contracts.Instance.State.{
  Raffle, Winner, Contract, Env, Call, no_tickets_sold, more_prizes_than_tickets, no_active_tickets,
  ticket_not_found,
}
use tikka_contracts.Instance.Helpers.{
  ticket_owner, transition_status, write_raffle, notify_factory, bump_raffle_ttl,
}

-- `winners.iter().any(|winner| winner == owner)`
abbrev pub has_won : List Address → Address → Bool
has_won [] owner = false
has_won (w ∷ ws) owner = w == owner || has_won ws owner

-- The index is taken if its ticket has an owner who has not won yet.
abbrev pub is_fresh : List Address → Option Address → Bool
is_fresh winners none = false
is_fresh winners (some owner) = not (has_won winners owner)

-- `for offset in 0..total_tickets`, with `count` offsets left
resolve_from : (ℕ → Option Ticket) → ℕ → List Address → ℕ → ℕ → ℕ → ℕ
resolve_from tickets total winners candidate offset zero = candidate
resolve_from tickets total winners candidate offset (suc count) =
    let rest = resolve_from tickets total winners candidate (offset + 1) count in
    let index = (candidate + offset) % total in
    if is_fresh winners (ticket_owner (tickets (index + 1))) then index else rest

unfoldable pub resolve_unique_winner : (ℕ → Option Ticket) → ℕ → List Address → ℕ → ℕ
unfolding resolve_from
resolve_unique_winner tickets total winners candidate =
    resolve_from tickets total winners candidate 0 total

-- The loop over the drawn indices: the indices as they are after `resolve_unique_winner`, and the
-- winners' addresses.
pub record Drawn : Type 0 where
  pub indices : List ℕ
  pub winners : List Address

unfoldable pub pick_index : (ℕ → Option Ticket) → Bool → ℕ → List Address → ℕ → ℕ
unfolding resolve_unique_winner
pick_index tickets unique total winners idx =
    if unique then resolve_unique_winner tickets total winners idx else idx

unfoldable pub draw_winners : (ℕ → Option Ticket) → Bool → ℕ → List ℕ → Drawn → Call Drawn
unfolding pick_index
draw_winners tickets unique total [] drawn = ok drawn
draw_winners tickets unique total (idx ∷ rest) drawn =
    let index = pick_index tickets unique total drawn.winners idx in
    ok_or (ticket_owner (tickets (index + 1))) ticket_not_found >>= λ owner.
    draw_winners tickets unique total rest
      (record { indices = drawn.indices ++ index ∷ []; winners = drawn.winners ++ owner ∷ [] })

abbrev pub winner_record : Address → Winner
winner_record address = record { address = address; claimed = false }

clear_seeds : List Address → (Address → Option ℕ) → Address → Option ℕ
clear_seeds [] seeds a = seeds a
clear_seeds (o ∷ os) seeds a = if a == o then none else clear_seeds os seeds a

unfoldable pub clear_quorum_storage : Contract → Contract
unfolding clear_seeds
clear_quorum_storage s = record s {
  quorum_seeds = clear_seeds s.quorum_submitted_oracles s.quorum_seeds;
  quorum_submitted_oracles = [];
}

-- The rejection loop is given two rounds, which always suffice for the tickets of a raffle; a loop
-- that went on would be stopped by the host.
abbrev pub draw_fuel : ℕ
draw_fuel = 2

-- The writes of `do_finalize_with_seed`, once the winners are drawn.
unfoldable pub settle :
    Env → Raffle → ℕ → Option (List (Address × ℕ)) → Drawn → Contract → Call Contract
settle env raffle seed quorum_contributions drawn s = do
  let seeded = record s {
    randomness_seed = some (record {
      seed = seed;
      randomness_source = raffle.randomness_source;
      winning_ticket_indices = drawn.indices;
      draw_timestamp = env.timestamp;
      draw_sequence = env.sequence;
      unique_winners = raffle.unique_winners;
      quorum_contributions = quorum_contributions;
    });
  }
  let settled = record raffle {
    winners = map winner_record drawn.winners;
    finalized_at = some env.timestamp;
  }
  (changed, s') ← transition_status settled finalized seeded
  let cleared = clear_quorum_storage (record (write_raffle changed s') {
    randomness_requested = false;
    randomness_request_id = none;
    randomness_request_ledger = 0;
  })
  let unlocked = record cleared { drawing_lock = false }
  notify_factory env unlocked
  ok (bump_raffle_ttl raffle.tickets_sold unlocked)

unfoldable pub do_finalize_with_seed :
    Env → Raffle → ℕ → Option (List (Address × ℕ)) → Contract → Call Contract
unfolding draw_winners settle transition_status clear_quorum_storage bump_raffle_ttl
    select_winner_indices
do_finalize_with_seed env raffle seed quorum_contributions s = do
  let total_tickets = raffle.tickets_sold
  reject_if (total_tickets == 0) no_tickets_sold
  reject_if (ltb total_tickets (length raffle.prizes)) more_prizes_than_tickets
  reject_if (raffle.tickets_sold == 0) no_active_tickets
  indices ← or_trap (select_winner_indices draw_fuel seed total_tickets (length raffle.prizes))
  drawn ←
      draw_winners s.tickets raffle.unique_winners total_tickets indices
        (record { indices = []; winners = [] })
  settle env raffle seed quorum_contributions drawn s
