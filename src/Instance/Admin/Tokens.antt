-- ===== src/Instance/Admin/Tokens.antt =====
-- The calls of contracts/raffle-instance/src/admin.rs that move tokens or drop storage.
use tikka_contracts.Prelude.{
  ℕ, zero, suc, ◌+◌, ◌*◌, ◌-◌, Bool, true, false, not, ◌&&◌, ◌||◌, Option, none, some, List, [],
  ◌∷◌, ltb, leb, ◌==◌, if◌then◌else◌,
}
use tikka_contracts.Prelude.Int.{ℤ, pos, ltb_ℤ, leb_ℤ, ◌-ℤ◌, checked_add, checked_sub}
use tikka_contracts.Prelude.Outcome.{ok, ◌>>=◌, ◌>>◌, reject_if, ok_or, or_trap}
use tikka_contracts.Shared.Types.{Address}
use tikka_contracts.Shared.Constants.{emergency_withdraw_delay_seconds}
use tikka_contracts.Shared.Status.{drawing, finalized, cancelled, claimed, failed, status_eq}
use tikka_contracts.Instance.State.{
  Raffle, Winner, Contract, Env, Call, not_authorized, invalid_parameters, invalid_status,
  invalid_state_transition, arithmetic_overflow, insufficient_accumulated_fees, prize_not_deposited,
  emergency_too_early,
}
use tikka_contracts.Instance.Helpers.{
  checked_u64, require_auth, require_admin, read_raffle, transition_status, try_transfer, transfer,
}
use tikka_contracts.Instance.Prize.{calculate_tier_prize}

-- `for ticket_id in 1..=tickets_sold`, from the last ticket down: the order does not show, since each
-- ticket adds the same price.
unfoldable pub outstanding_ticket_refunds : Raffle → (ℕ → Bool) → ℕ → Call ℤ
outstanding_ticket_refunds raffle refunded zero = ok (pos 0)
outstanding_ticket_refunds raffle refunded (suc n) =
    outstanding_ticket_refunds raffle refunded n >>= λ outstanding.
    if refunded (suc n)
    then ok outstanding
    else ok_or (checked_add outstanding raffle.ticket_price) arithmetic_overflow

-- The prizes of the winners from `tier_index` on that have not claimed.
unfoldable pub unclaimed_prizes : Raffle → ℕ → List Winner → ℤ → Call ℤ
unfolding calculate_tier_prize
unclaimed_prizes raffle tier_index [] outstanding = ok outstanding
unclaimed_prizes raffle tier_index (w ∷ ws) outstanding =
    (if w.claimed then ok outstanding else (do
      prize ← calculate_tier_prize raffle tier_index
      ok_or (checked_add outstanding prize) arithmetic_overflow))
    >>= λ next. unclaimed_prizes raffle (tier_index + 1) ws next

unfoldable pub outstanding_prize : Raffle → Call ℤ
unfolding unclaimed_prizes
outstanding_prize raffle =
    if not raffle.prize_deposited
    then ok (pos 0)
    else (if not (status_eq raffle.status finalized)
        then ok raffle.prize_amount
        else unclaimed_prizes raffle 0 raffle.winners (pos 0))

-- The two parts of an entitlement: refunds and fees in the payment token, and the prize.
unfoldable pub payment_entitlement : Raffle → Address → Contract → Call ℤ
unfolding outstanding_ticket_refunds
payment_entitlement raffle token s =
    if token == raffle.payment_token
      && not (status_eq raffle.status finalized)
      && not (status_eq raffle.status claimed)
    then (do
      refunds ← outstanding_ticket_refunds raffle s.ticket_refunded raffle.tickets_sold
      ok_or (checked_add refunds s.accumulated_fees) arithmetic_overflow)
    else ok (pos 0)

unfoldable pub token_entitlement : Raffle → Address → Contract → Call ℤ
unfolding payment_entitlement outstanding_prize
token_entitlement raffle token s = do
  entitlement ← payment_entitlement raffle token s
  if token == raffle.prize_token
      then (do
        prize ← outstanding_prize raffle
        ok_or (checked_add entitlement prize) arithmetic_overflow)
      else ok entitlement

unfoldable pub withdraw_fees : Env → Address → ℤ → Contract → Call Contract
unfolding require_admin transfer ◌-ℤ◌
withdraw_fees env recipient amount s = do
  admin ← require_admin env s
  raffle ← read_raffle s
  reject_if (not (status_eq raffle.status finalized) && not (status_eq raffle.status claimed))
      invalid_status
  reject_if (leb_ℤ amount (pos 0)) invalid_parameters
  reject_if (ltb_ℤ s.accumulated_fees amount) insufficient_accumulated_fees
  paid ← transfer env raffle.payment_token env.current_contract_address recipient amount s
  ok (record paid { accumulated_fees = s.accumulated_fees -ℤ amount })

-- What the surplus test of `rescue_tokens` asks of an initialized raffle.
unfoldable pub check_surplus : Env → Raffle → Address → ℤ → Contract → Call (Unit {0})
unfolding token_entitlement
check_surplus env raffle token amount s = do
  let balance = s.balances token env.current_contract_address
  entitlement ← token_entitlement raffle token s
  reject_if (ltb_ℤ balance entitlement) invalid_state_transition
  surplus ← or_trap (checked_sub balance entitlement)
  reject_if (ltb_ℤ surplus amount) invalid_state_transition

abbrev pub check_rescue : Env → Option Raffle → Address → ℤ → Contract → Call (Unit {0})
check_rescue env none token amount s = ok tt
check_rescue env (some raffle) token amount s = check_surplus env raffle token amount s

unfoldable pub rescue_tokens : Env → Address → Address → ℤ → Contract → Call Contract
unfolding check_surplus try_transfer
rescue_tokens env token recipient amount s = do
  admin ← ok_or s.admin not_authorized
  require_auth env admin
  reject_if (leb_ℤ amount (pos 0)) invalid_parameters
  check_rescue env s.raffle token amount s
  try_transfer env token env.current_contract_address recipient amount s

-- Every ticket from 1 to n has been refunded.
unfoldable pub all_refunded : (ℕ → Bool) → ℕ → Bool
all_refunded refunded zero = true
all_refunded refunded (suc n) = refunded (suc n) && all_refunded refunded n

unfoldable pub sweep_dust : Env → Contract → Call Contract
unfolding all_refunded token_entitlement try_transfer
sweep_dust env s = do
  admin ← ok_or s.admin not_authorized
  require_auth env admin
  raffle ← read_raffle s
  reject_if (not (status_eq raffle.status claimed) && not (status_eq raffle.status cancelled))
      invalid_status
  reject_if (status_eq raffle.status cancelled && raffle.prize_deposited) invalid_state_transition
  reject_if
      (status_eq raffle.status cancelled
        && not (all_refunded s.ticket_refunded raffle.tickets_sold))
      invalid_state_transition
  treasury ← ok_or raffle.treasury_address invalid_parameters
  let balance = s.balances raffle.payment_token env.current_contract_address
  entitlement ← token_entitlement raffle raffle.payment_token s
  reject_if (ltb_ℤ balance entitlement) invalid_state_transition
  dust ← or_trap (checked_sub balance entitlement)
  if ltb_ℤ (pos 0) dust
      then try_transfer env raffle.payment_token env.current_contract_address treasury dust s
      else ok s

-- `keep i` for the keys that are removed, `f` elsewhere
abbrev pub remove_upto {ℓ} : {A : Type ℓ} → ℕ → A → (ℕ → A) → ℕ → A
remove_upto n missing f i = if ltb 0 i && leb i n then missing else f i

unfoldable pub remove_all {ℓ} : {A : Type ℓ} → List Address → A → (Address → A) → Address → A
remove_all [] missing f a = f a
remove_all (b ∷ bs) missing f a = if a == b then missing else remove_all bs missing f a

-- The oracles are looked up in instance storage, where no call puts them, so their seeds stay.
unfoldable pub wipe_storage : Env → Contract → Call Contract
unfolding all_refunded remove_all
wipe_storage env s = do
  factory ← ok_or s.factory not_authorized
  require_auth env factory
  raffle ← read_raffle s
  let refundable = status_eq raffle.status cancelled || status_eq raffle.status failed
  reject_if (not refundable && not (status_eq raffle.status claimed)) invalid_status
  reject_if (refundable && raffle.prize_deposited) invalid_state_transition
  reject_if (refundable && not (all_refunded s.ticket_refunded raffle.tickets_sold))
      invalid_state_transition
  let payment_balance = s.balances raffle.payment_token env.current_contract_address
  let prize_balance = s.balances raffle.prize_token env.current_contract_address
  reject_if
      (ltb_ℤ payment_balance (pos 0)
        || ltb_ℤ (pos 0) payment_balance
        || ltb_ℤ prize_balance (pos 0)
        || ltb_ℤ (pos 0) prize_balance)
      invalid_state_transition
  ok (record s {
    tickets = remove_upto raffle.tickets_sold none s.tickets;
    ticket_refunded = remove_upto raffle.tickets_sold false s.ticket_refunded;
    commit_entries = remove_upto raffle.tickets_sold none s.commit_entries;
    ticket_count = remove_all s.ticket_buyers 0 s.ticket_count;
    owner_tickets = remove_all s.ticket_buyers [] s.owner_tickets;
    ticket_buyers = [];
    paused = false;
    reentrancy_guard = false;
    accumulated_fees = pos 0;
    randomness_requested = false;
    randomness_request_ledger = 0;
    randomness_request_id = none;
    drawing_lock = false;
    pending_admin_cancel = none;
  })

-- The delay before the prize of a stuck draw may be taken back.
unfoldable pub check_emergency_delay : Env → Raffle → Contract → Call (Unit {0})
check_emergency_delay env raffle s =
    if raffle.no_deadline
    then reject_if
        (ltb ((env.sequence - s.randomness_request_ledger) * 5) emergency_withdraw_delay_seconds)
        emergency_too_early
    else (do
      open_at ← or_trap (checked_u64 (raffle.end_time + emergency_withdraw_delay_seconds))
      reject_if (ltb env.timestamp open_at) emergency_too_early)

unfoldable pub emergency_withdraw : Env → Address → Contract → Call Contract
unfolding check_emergency_delay token_entitlement transition_status transfer
emergency_withdraw env caller s = do
  require_auth env caller
  raffle ← read_raffle s
  reject_if (not raffle.prize_deposited) prize_not_deposited
  admin ← ok_or s.admin not_authorized
  reject_if (not (caller == raffle.creator) && not (caller == admin)) not_authorized
  reject_if (not (status_eq raffle.status drawing)) invalid_status
  check_emergency_delay env raffle s
  let balance = s.balances raffle.prize_token env.current_contract_address
  entitlement ← token_entitlement raffle raffle.prize_token s
  reject_if (ltb_ℤ balance raffle.prize_amount) invalid_state_transition
  left ← or_trap (checked_sub balance raffle.prize_amount)
  owed ← or_trap (checked_sub entitlement raffle.prize_amount)
  reject_if (ltb_ℤ left owed) invalid_state_transition
  (changed, s') ← transition_status (record raffle { prize_deposited = false }) cancelled s
  transfer env raffle.prize_token env.current_contract_address raffle.creator raffle.prize_amount s'
