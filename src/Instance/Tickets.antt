-- ===== src/Instance/Tickets.antt =====
-- `buy_tickets` and `submit_commit` of contracts/raffle-instance/src/tickets.rs. The file carries the
-- leftovers of two merges: the body of `validate_purchase_preconditions` stands under a first
-- signature of `buy_tickets`, and in `buy_tickets` a second payment and event stand between the two
-- branch labels before the final TTL bump. The model is the labelled branch, with one payment.
-- `buy_tickets_for` is not modelled: the tickets it writes lack two fields of `Ticket`.
pub mod Steps
pub mod Sales
use tikka_contracts.Prelude.{
  ℕ, zero, suc, ◌+◌, Bool, true, false, not, ◌&&◌, ◌||◌, Option, none, some, List, [], ◌∷◌, ◌++◌,
  ltb, leb, ◌==◌, if◌then◌else◌, is_some,
}
use tikka_contracts.Prelude.Int.{ℤ, pos, ltb_ℤ, checked_add}
use tikka_contracts.Prelude.Outcome.{ok, err, ◌>>=◌, ◌>>◌, reject_if, trap_unless, ok_or, or_trap}
use tikka_contracts.Shared.Types.{Address, Bytes, Ticket, is_external, is_commit_reveal}
use tikka_contracts.Shared.Status.{active, status_eq}
use tikka_contracts.Instance.State.{
  Raffle, Contract, Env, Call, CommitRevealEntry, update, drawing_already_in_progress,
  invalid_quantity, exceeds_max_tickets_per_tx, raffle_inactive, contract_paused,
  invalid_state_transition, raffle_expired, arithmetic_overflow, tickets_sold_out,
  multiple_tickets_not_allowed, exceeds_max_tickets_per_address, invalid_parameters, invalid_status,
  ticket_not_found, commit_already_submitted,
}
use tikka_contracts.Instance.Helpers.{
  checked_u32, require_auth, read_raffle, write_raffle, acquire_guard, release_guard,
  request_randomness, transition_to_drawing, require_not_paused, require_global_not_paused,
  try_transfer, transfer, notify_factory, bump_raffle_ttl,
}
use tikka_contracts.Instance.Quote.{calculate_buy_quote}

unfoldable pub validate_purchase_preconditions : Env → Raffle → ℕ → Contract → Call Contract
unfolding acquire_guard require_not_paused require_global_not_paused
validate_purchase_preconditions env raffle quantity s = do
  guarded ← acquire_guard s
  reject_if guarded.drawing_lock drawing_already_in_progress
  reject_if (quantity == 0) invalid_quantity
  reject_if (ltb raffle.max_tickets_per_tx quantity) exceeds_max_tickets_per_tx
  require_not_paused guarded
  require_global_not_paused env guarded
  reject_if (not (status_eq raffle.status active)) raffle_inactive
  reject_if raffle.ticket_sales_paused contract_paused
  reject_if (not raffle.prize_deposited) invalid_state_transition
  reject_if (not raffle.no_deadline && leb raffle.end_time env.timestamp) raffle_expired
  ok (release_guard guarded)

-- The caps on the raffle and on the buyer.
unfoldable pub check_caps : Raffle → ℕ → ℕ → Call (Unit {0})
check_caps raffle current_count quantity = do
  sold ← ok_or (checked_u32 (raffle.tickets_sold + quantity)) arithmetic_overflow
  reject_if (ltb raffle.max_tickets sold) tickets_sold_out
  reject_if
      (raffle.max_tickets_per_address == 0
        && not raffle.allow_multiple
        && (ltb 0 current_count || ltb 1 quantity))
      multiple_tickets_not_allowed
  if ltb 0 raffle.max_tickets_per_address
      then (do
        count ← ok_or (checked_u32 (current_count + quantity)) arithmetic_overflow
        reject_if (ltb raffle.max_tickets_per_address count) exceeds_max_tickets_per_address)
      else ok tt

-- The second read of the sold and owned counts.
unfoldable pub check_unmodified : Raffle → ℕ → Address → ℕ → Contract → Call (Unit {0})
check_unmodified snapshot current_count buyer quantity s = do
  persisted ← read_raffle s
  reject_if
      (not (persisted.tickets_sold == snapshot.tickets_sold)
        || not (s.ticket_count buyer == current_count))
      invalid_state_transition
  sold ← ok_or (checked_u32 (persisted.tickets_sold + quantity)) arithmetic_overflow
  reject_if (ltb persisted.max_tickets sold) tickets_sold_out

unfoldable pub pay_treasury : Env → Raffle → ℤ → Contract → Call Contract
unfolding transfer
pay_treasury env raffle amount s = elim raffle.treasury_address [
  | none ↦ ok s
  | some treasury ↦ transfer env raffle.payment_token env.current_contract_address treasury amount s
]

-- The fee goes to the treasury, and is added to `AccumulatedFees` as well.
unfoldable pub collect_fee : Env → Raffle → ℤ → Contract → Call Contract
unfolding pay_treasury
collect_fee env raffle protocol_fee s =
    if ltb_ℤ (pos 0) protocol_fee
    then (do
      paid ← pay_treasury env raffle protocol_fee s
      fees ← or_trap (checked_add paid.accumulated_fees protocol_fee)
      ok (record paid { accumulated_fees = fees }))
    else ok s

-- `for i in 0..quantity`, with `count` rounds left
unfoldable pub issue_tickets :
    (ℕ → Ticket) → ℕ → ℕ → ℕ → (ℕ → Option Ticket) → Call (ℕ → Option Ticket)
issue_tickets new_ticket snapshot_sold i zero tickets = ok tickets
issue_tickets new_ticket snapshot_sold i (suc count) tickets =
    ok_or (checked_u32 (snapshot_sold + i + 1)) arithmetic_overflow >>= λ ticket_id.
    issue_tickets new_ticket snapshot_sold (i + 1) count
      (update tickets ticket_id (some (new_ticket ticket_id)))

abbrev pub bought_ticket : Env → Raffle → Address → ℕ → Ticket
bought_ticket env raffle buyer ticket_id = record {
  id = ticket_id;
  owner = buyer;
  purchase_time = env.timestamp;
  ticket_number = ticket_id;
  payer = buyer;
  price_paid = raffle.ticket_price;
}

-- The writes of a purchase: the buyers, the tickets, the buyer's count and the tickets sold.
unfoldable pub record_purchase : Env → Raffle → Address → ℕ → Contract → Call (Raffle × Contract)
unfolding issue_tickets
record_purchase env raffle buyer quantity s = do
  let current_count = s.ticket_count buyer
  let listed = record s {
    ticket_buyers = if current_count == 0 then s.ticket_buyers ++ buyer ∷ [] else s.ticket_buyers;
  }
  tickets ←
      issue_tickets (bought_ticket env raffle buyer) raffle.tickets_sold 0 quantity listed.tickets
  count ← ok_or (checked_u32 (current_count + quantity)) arithmetic_overflow
  sold ← ok_or (checked_u32 (raffle.tickets_sold + quantity)) arithmetic_overflow
  ok (
    record raffle { tickets_sold = sold },
    record listed { tickets = tickets; ticket_count = update listed.ticket_count buyer count },
  )

-- The drawing that the sale of the last ticket begins.
unfoldable pub begin_drawing : Env → Raffle → Contract → Call (Raffle × Contract)
unfolding transition_to_drawing request_randomness
begin_drawing env raffle s =
    if leb raffle.max_tickets raffle.tickets_sold
    then (do
      (drawing_raffle, s1) ← transition_to_drawing raffle s
      if is_external drawing_raffle.randomness_source
          then (do (request_id, s2) ← request_randomness env s1; ok (drawing_raffle, s2))
          else ok (drawing_raffle, s1))
    else ok (raffle, s)

unfoldable pub buy_tickets : Env → Address → ℕ → Contract → Call (ℕ × Contract)
unfolding try_transfer validate_purchase_preconditions check_caps check_unmodified collect_fee
    record_purchase begin_drawing bump_raffle_ttl calculate_buy_quote
buy_tickets env buyer quantity s0 = do
  require_auth env buyer
  raffle ← read_raffle s0
  s1 ← validate_purchase_preconditions env raffle quantity s0
  let current_count = s1.ticket_count buyer
  check_caps raffle current_count quantity
  quote ← calculate_buy_quote raffle quantity
  check_unmodified raffle current_count buyer quantity s1
  s2 ← try_transfer env raffle.payment_token buyer env.current_contract_address quote.net_to_pay s1
  s3 ← collect_fee env raffle quote.fee s2
  (sold, s4) ← record_purchase env raffle buyer quantity s3
  (final, s5) ← begin_drawing env sold s4
  let s6 = write_raffle final s5
  notify_factory env s6
  ok (final.tickets_sold, bump_raffle_ttl final.tickets_sold s6)

unfoldable pub submit_commit : Env → ℕ → Bytes → Contract → Call Contract
unfolding require_not_paused require_global_not_paused
submit_commit env ticket_id hash s = do
  raffle ← read_raffle s
  reject_if (not (is_commit_reveal raffle.randomness_source)) invalid_parameters
  reject_if (not (status_eq raffle.status active)) invalid_status
  require_not_paused s
  require_global_not_paused env s
  ticket ← ok_or (s.tickets ticket_id) ticket_not_found
  require_auth env ticket.owner
  reject_if (is_some (s.commit_entries ticket_id)) commit_already_submitted
  let entry : CommitRevealEntry = record { committer = ticket.owner; hash = hash }
  ok (record s { commit_entries = update s.commit_entries ticket_id (some entry) })
