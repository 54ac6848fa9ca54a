-- ===== src/Instance/Views.antt =====
-- The queries of contracts/raffle-instance/src/views.rs that compute what they return, and the query of
-- the remaining allowance of contracts/raffle-instance/src/lib.rs.
pub mod Allowance
use tikka_contracts.Prelude.{
  ℕ, zero, suc, ◌+◌, ◌-◌, ◌^◌, Bool, true, false, not, ltb, if◌then◌else◌, Option, none, some, List,
  [], ◌∷◌, length,
}
use tikka_contracts.Prelude.Int.{ℤ, pos, checked_mul}
use tikka_contracts.Prelude.Outcome.{Outcome, ok, err, ◌>>=◌, ok_or}
use tikka_contracts.Shared.Types.{Address, RandomnessSource, BuyQuote}
use tikka_contracts.Shared.Status.{RaffleStatus}
use tikka_contracts.Instance.State.{
  Raffle, Contract, Env, Call, invalid_status, arithmetic_overflow,
}
use tikka_contracts.Instance.Helpers.{read_raffle}
use tikka_contracts.Instance.Quote.{calculate_buy_quote}

pub record FairnessData : Type 0 where
  pub seed : ℕ
  pub randomness_source : RandomnessSource
  pub ticket_ids : List ℕ
  pub winning_ticket_indices : List ℕ
  pub draw_timestamp : ℕ
  pub draw_sequence : ℕ
  pub unique_winners : Bool
  pub quorum_contributions : Option (List (Address × ℕ))

-- `for i in 1..=tickets_sold`, with `count` ids left
abbrev pub ids_from : ℕ → ℕ → List ℕ
ids_from i zero = []
ids_from i (suc count) = i ∷ ids_from (i + 1) count

unfoldable pub get_fairness_data : Contract → Call FairnessData
get_fairness_data s = do
  meta ← ok_or s.randomness_seed invalid_status
  raffle ← read_raffle s
  ok (record {
    seed = meta.seed;
    randomness_source = meta.randomness_source;
    ticket_ids = ids_from 1 raffle.tickets_sold;
    winning_ticket_indices = meta.winning_ticket_indices;
    draw_timestamp = meta.draw_timestamp;
    draw_sequence = meta.draw_sequence;
    unique_winners = meta.unique_winners;
    quorum_contributions = meta.quorum_contributions;
  })

pub record RaffleStats : Type 0 where
  pub tickets_sold : ℕ
  pub unique_buyers : ℕ
  pub gross_revenue : ℤ
  pub fees_accrued : ℤ
  pub prize_funded : Bool
  pub status : RaffleStatus
  pub time_remaining : ℕ

-- The difference is 0 from the end on.
abbrev pub time_remaining : Raffle → ℕ → ℕ
time_remaining raffle now = if raffle.no_deadline then 0 else raffle.end_time - now

unfoldable pub get_stats : Env → Contract → Call RaffleStats
get_stats env s = do
  raffle ← read_raffle s
  gross_revenue ←
      ok_or (checked_mul (pos raffle.tickets_sold) raffle.ticket_price) arithmetic_overflow
  ok (record {
    tickets_sold = raffle.tickets_sold;
    unique_buyers = length s.ticket_buyers;
    gross_revenue = gross_revenue;
    fees_accrued = s.accumulated_fees;
    prize_funded = raffle.prize_deposited;
    status = raffle.status;
    time_remaining = time_remaining raffle env.timestamp;
  })

unfoldable pub is_ticket_sales_paused : Contract → Bool
is_ticket_sales_paused s = elim s.raffle [ none ↦ false | some raffle ↦ raffle.ticket_sales_paused ]

abbrev pub effective_max_tickets_per_address : Raffle → Option ℕ
effective_max_tickets_per_address raffle =
    if ltb 0 raffle.max_tickets_per_address
    then some raffle.max_tickets_per_address
    else if not raffle.allow_multiple
    then some 1
    else none

-- The exported query: `u32::MAX` without a cap.
unfoldable pub get_remaining_ticket_allowance : Address → Contract → Call ℕ
get_remaining_ticket_allowance owner s = do
  raffle ← read_raffle s
  elim (effective_max_tickets_per_address raffle) [
    | none ↦ ok (2 ^ 32 - 1)
    | some cap ↦ ok (cap - s.ticket_count owner)
  ]

unfoldable pub preview_buy : ℕ → Contract → Call BuyQuote
unfolding calculate_buy_quote
preview_buy quantity s = do raffle ← read_raffle s; calculate_buy_quote raffle quantity
