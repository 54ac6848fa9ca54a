-- ===== src/Instance/Claim.antt =====
-- contracts/raffle-instance/src/claim.rs: claims, the sweep of unclaimed prizes, and refunds. The file
-- declares `batch_refund_tickets` twice; this is the second, on lines 301-360, whose event fits its
-- type. In `refund_ticket` the statements behind its return are never reached.
pub mod Once
pub mod Sweep
use tikka_contracts.Prelude.{
  ℕ, zero, suc, ◌+◌, ◌-◌, ◌^◌, Bool, true, false, not, ◌&&◌, ◌||◌, Option, none, some, List, [],
  ◌∷◌, ltb, leb, ◌==◌, if◌then◌else◌, length, get_elem?, set, min,
}
use tikka_contracts.Prelude.Int.{ℤ, pos, ltb_ℤ, leb_ℤ, checked_add, checked_sub, checked_mul, div_ℤ}
use tikka_contracts.Prelude.Outcome.{ok, err, ◌>>=◌, ◌>>◌, reject_if, trap_unless, ok_or, or_trap}
use tikka_contracts.Shared.Types.{Address, Ticket}
use tikka_contracts.Shared.Constants.{max_sweep_unclaimed_per_call}
use tikka_contracts.Shared.Status.{finalized, cancelled, failed, claimed, status_eq}
use tikka_contracts.Instance.State.{
  Raffle, Winner, Contract, Env, Call, update, invalid_status, claim_too_early, invalid_parameters,
  invalid_index, not_winner, prize_already_claimed, zero_prize, arithmetic_overflow,
  insufficient_funds, invalid_state_transition, not_authorized, prize_not_deposited,
  ticket_not_found,
}
use tikka_contracts.Instance.Helpers.{
  checked_u64, saturating_add_u32, require_auth, read_raffle, write_raffle, acquire_guard,
  release_guard, transition_status, try_transfer, transfer,
}
use tikka_contracts.Instance.Prize.{calculate_tier_prize}

-- The lockup, once the raffle has been finalized.
unfoldable pub check_lockup : Env → Raffle → Call (Unit {0})
check_lockup env raffle = elim raffle.finalized_at [
  | none ↦ ok tt
  | some fa ↦ do
    unlocked ← or_trap (checked_u64 (fa + raffle.claim_lockup_seconds))
    reject_if (ltb env.timestamp unlocked) claim_too_early
]

-- The fee on a claim, rounded up.
unfoldable pub claim_fee : Raffle → ℤ → Call ℤ
claim_fee raffle amount = do
  scaled ← ok_or (checked_mul amount (pos raffle.protocol_fee_bp)) arithmetic_overflow
  raised ← ok_or (checked_add scaled (pos 9_999)) arithmetic_overflow
  ok (div_ℤ raised 10_000)

abbrev pub all_claimed : List Winner → Bool
all_claimed [] = true
all_claimed (w ∷ ws) = w.claimed && all_claimed ws

-- A raffle whose prizes are all accounted for becomes `Claimed`, and is stored either way.
unfoldable pub close_if_claimed : Raffle → Contract → Call Contract
unfolding transition_status
close_if_claimed raffle s =
    if all_claimed raffle.winners
    then (do (changed, s') ← transition_status raffle claimed s; ok (write_raffle changed s'))
    else ok (write_raffle raffle s)

unfoldable pub pay_winner : Env → Raffle → Address → ℤ → Contract → Call Contract
unfolding try_transfer
pay_winner env raffle winner net_amount s =
    if ltb_ℤ (pos 0) net_amount
    then try_transfer env raffle.prize_token env.current_contract_address winner net_amount s
    else ok s

unfoldable pub pay_claim_treasury : Env → Raffle → ℤ → Contract → Call Contract
unfolding transfer
pay_claim_treasury env raffle amount s = elim raffle.treasury_address [
  | none ↦ ok s
  | some treasury ↦ transfer env raffle.prize_token env.current_contract_address treasury amount s
]

unfoldable pub collect_claim_fee : Env → Raffle → ℤ → Contract → Call Contract
unfolding pay_claim_treasury
collect_claim_fee env raffle protocol_fee s =
    if ltb_ℤ (pos 0) protocol_fee
    then (do
      paid ← pay_claim_treasury env raffle protocol_fee s
      fees ← or_trap (checked_add paid.accumulated_fees protocol_fee)
      ok (record paid { accumulated_fees = fees }))
    else ok s

abbrev pub mark_claimed : Raffle → ℕ → Winner → Raffle
mark_claimed raffle tier_index entry = record raffle {
  winners = set raffle.winners tier_index (record entry { claimed = true });
}

-- The checks of a claim, up to the fee: the winner's entry, the gross amount and the fee.
unfoldable pub check_claim : Env → Raffle → Address → ℕ → Contract → Call (Winner × ℤ × ℤ)
unfolding check_lockup claim_fee calculate_tier_prize
check_claim env raffle winner tier_index s = do
  reject_if (not (status_eq raffle.status finalized)) invalid_status
  check_lockup env raffle
  reject_if (leb (length raffle.winners) tier_index) invalid_parameters
  entry ← ok_or (get_elem? raffle.winners tier_index) invalid_index
  reject_if (not (entry.address == winner)) not_winner
  reject_if entry.claimed prize_already_claimed
  amount ← calculate_tier_prize raffle tier_index
  reject_if (leb_ℤ amount (pos 0)) zero_prize
  protocol_fee ← claim_fee raffle amount
  ok (entry, amount, protocol_fee)

unfoldable pub claim_prize : Env → Address → ℕ → Contract → Call (ℤ × Contract)
unfolding acquire_guard check_claim close_if_claimed pay_winner collect_claim_fee
claim_prize env winner tier_index s0 = do
  require_auth env winner
  s1 ← acquire_guard s0
  raffle ← read_raffle s1
  (entry, amount, protocol_fee) ← check_claim env raffle winner tier_index s1
  net_amount ← ok_or (checked_sub amount protocol_fee) arithmetic_overflow
  reject_if (ltb_ℤ (s1.balances raffle.prize_token env.current_contract_address) amount)
      insufficient_funds
  s2 ← close_if_claimed (mark_claimed raffle tier_index entry) s1
  s3 ← pay_winner env raffle winner net_amount s2
  s4 ← collect_claim_fee env raffle protocol_fee s3
  ok (amount, release_guard s4)

-- One index of the sweep: nothing, or a transfer and a mark.
unfoldable pub sweep_one : Env → Address → ℕ → Raffle × ℕ × Contract → Call (Raffle × ℕ × Contract)
unfolding try_transfer calculate_tier_prize
sweep_one env treasury i (raffle, swept, s) = do
  entry ← ok_or (get_elem? raffle.winners i) invalid_index
  if entry.claimed then ok (raffle, swept, s) else (do
    amount ← calculate_tier_prize raffle i
    if leb_ℤ amount (pos 0) then ok (raffle, swept, s) else (do
      paid ← try_transfer env raffle.prize_token env.current_contract_address treasury amount s
      ok (mark_claimed raffle i entry, swept + 1, paid)))

-- `for i in start_index..end_index`, with `count` rounds left
unfoldable pub sweep_range :
    Env → Address → ℕ → ℕ → Raffle × ℕ × Contract → Call (Raffle × ℕ × Contract)
unfolding sweep_one
sweep_range env treasury i zero acc = ok acc
sweep_range env treasury i (suc count) acc =
    sweep_one env treasury i acc >>= λ next. sweep_range env treasury (i + 1) count next

abbrev pub sweep_limit : ℕ → ℕ
sweep_limit limit =
    if limit == 0 then max_sweep_unclaimed_per_call else min limit max_sweep_unclaimed_per_call

unfoldable pub sweep_unclaimed : Env → ℕ → ℕ → Contract → Call (ℕ × Contract)
unfolding acquire_guard sweep_range close_if_claimed
sweep_unclaimed env start_index limit s0 = do
  s1 ← acquire_guard s0
  raffle ← read_raffle s1
  reject_if (not (status_eq raffle.status finalized)) invalid_status
  reject_if (raffle.claim_expiry_seconds == 0) invalid_state_transition
  fa ← ok_or raffle.finalized_at invalid_status
  expires ← or_trap (checked_u64 (fa + raffle.claim_expiry_seconds))
  reject_if (ltb env.timestamp expires) claim_too_early
  treasury ← ok_or raffle.treasury_address not_authorized
  let len = length raffle.winners
  if leb len start_index then ok (0, release_guard s1) else (do
    let end_index = min (saturating_add_u32 start_index (sweep_limit limit)) len
    (after, swept, s2) ←
        sweep_range env treasury start_index (end_index - start_index) (raffle, 0, s1)
    s3 ← close_if_claimed after s2
    ok (swept, release_guard s3))

abbrev pub is_called_off : Raffle → Bool
is_called_off raffle = status_eq raffle.status cancelled || status_eq raffle.status failed

unfoldable pub refund_prize : Env → Contract → Call Contract
unfolding try_transfer acquire_guard
refund_prize env s0 = do
  s1 ← acquire_guard s0
  raffle ← read_raffle s1
  require_auth env raffle.creator
  reject_if (not (is_called_off raffle)) invalid_status
  reject_if (not raffle.prize_deposited) prize_not_deposited
  let s2 = write_raffle (record raffle { prize_deposited = false }) s1
  s3 ←
      try_transfer env raffle.prize_token env.current_contract_address raffle.creator
        raffle.prize_amount s2
  ok (release_guard s3)

unfoldable pub refund_ticket : Env → ℕ → Contract → Call (ℤ × Contract)
unfolding try_transfer acquire_guard
refund_ticket env ticket_id s0 = do
  raffle ← read_raffle s0
  reject_if (not (is_called_off raffle)) invalid_status
  s1 ← acquire_guard s0
  ticket ← ok_or (s1.tickets ticket_id) ticket_not_found
  require_auth env ticket.payer
  reject_if (s1.ticket_refunded ticket_id) prize_already_claimed
  let s2 = record s1 { ticket_refunded = update s1.ticket_refunded ticket_id true }
  s3 ←
      try_transfer env raffle.payment_token env.current_contract_address ticket.owner
        ticket.price_paid s2
  ok (ticket.price_paid, release_guard s3)

-- One ticket of a batch.
unfoldable pub refund_one : Env → Raffle → Address → ℕ → ℤ × Contract → Call (ℤ × Contract)
unfolding try_transfer
refund_one env raffle owner ticket_id (total_refunded, s) = do
  ticket ← ok_or (s.tickets ticket_id) ticket_not_found
  reject_if (not (ticket.owner == owner)) not_authorized
  if s.ticket_refunded ticket_id then ok (total_refunded, s) else (do
    let marked = record s { ticket_refunded = update s.ticket_refunded ticket_id true }
    paid ←
        try_transfer env raffle.payment_token env.current_contract_address ticket.owner
          raffle.ticket_price marked
    total ← ok_or (checked_add total_refunded raffle.ticket_price) arithmetic_overflow
    ok (total, paid))

unfoldable pub refund_all : Env → Raffle → Address → List ℕ → ℤ × Contract → Call (ℤ × Contract)
unfolding refund_one
refund_all env raffle owner [] acc = ok acc
refund_all env raffle owner (ticket_id ∷ ticket_ids) acc =
    refund_one env raffle owner ticket_id acc >>= λ next.
    refund_all env raffle owner ticket_ids next

unfoldable pub batch_refund_tickets : Env → Address → List ℕ → Contract → Call (ℤ × Contract)
unfolding acquire_guard refund_all
batch_refund_tickets env owner ticket_ids s0 = do
  require_auth env owner
  raffle ← read_raffle s0
  reject_if (not (is_called_off raffle)) invalid_status
  s1 ← acquire_guard s0
  (total_refunded, s2) ← refund_all env raffle owner ticket_ids (pos 0, s1)
  ok (total_refunded, release_guard s2)
