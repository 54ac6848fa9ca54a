-- ===== src/Tests/Samples.antt =====
-- A configuration, a host, and runs of the code of Instance on them.
use tikka_contracts.Instance.Views.{get_remaining_ticket_allowance}
use tikka_contracts.Prelude.{◌≤◌, arith, ℕ, ◌≡◌, refl, true, false, none, some, [], ◌∷◌, replicate}
use tikka_contracts.Prelude.Int.{ℤ, pos, checked_mul, checked_add, checked_sub, div_ℤ}
use tikka_contracts.Prelude.Outcome.{ok, err, trap, ◌>>=◌}
use tikka_contracts.Shared.Types.{RaffleConfig, external, BuyQuote}
use tikka_contracts.Shared.Status.{finalized, cancelled, can_transition_to, status_eq}
use tikka_contracts.Instance.State.{Raffle, Contract, Env, Balances}
use tikka_contracts.Instance.Init.{new_raffle}
use tikka_contracts.Instance.Quote.{calculate_buy_quote, early_bird_discount}
use tikka_contracts.Instance.Claim.{sweep_unclaimed, claim_prize, refund_ticket}
use tikka_contracts.Instance.Phase.{in_drawing}
use tikka_contracts.Instance.Admin.Rescue.{is_open}
use tikka_contracts.Shared.Validate.Accepts.{sum}
use tikka_contracts.Instance.Calls.{
  Request, on_init, on_deposit_prize, on_buy_tickets, perform, empty_contract, Reachable, deployed,
  called,
}
use tikka_contracts.Shared.Types.{admin_cancelled}
use tikka_contracts.Instance.Tickets.{buy_tickets}
use tikka_contracts.Instance.Admin.{cancel_raffle, execute_admin_cancel}
use tikka_contracts.Instance.Admin.Tokens.{rescue_tokens, outstanding_prize}
use tikka_contracts.Instance.Calls.{on_cancel_raffle, on_execute_admin_cancel, on_rescue_tokens}

abbrev pub config : RaffleConfig
config = record {
  description = 1 ∷ [];
  end_time = 0;
  no_deadline = true;
  max_tickets = 2;
  max_tickets_per_tx = 2;
  max_tickets_per_address = 2;
  min_tickets = 1;
  allow_multiple = true;
  ticket_price = pos 10_000;
  payment_token = 50;
  prize_amount = pos 20_000;
  prizes = 6_000 ∷ 4_000 ∷ [];
  randomness_source = external;
  oracle_address = some 60;
  protocol_fee_bp = 100;
  treasury_address = some 70;
  swap_router = none;
  tikka_token = none;
  metadata_hash = 1 ∷ replicate 31 0;
  claim_lockup_seconds = none;
  claim_expiry_seconds = none;
  swap_deadline_seconds = none;
  early_bird_ticket_percentage = 50;
  early_bird_discount_bp = 1_000;
  category = none;
  unique_winners = false;
  bundles = [];
  prize_token = none;
  nft_contract = none;
}

abbrev pub host : Env
host = record {
  timestamp = 100_000;
  sequence = 1_000;
  current_contract_address = 1;
  authorized = λ a. true;
  exists = λ a. true;
  has_decimals = λ a. true;
  transfer = λ token from to amount b. some b;
  global_paused = false;
  notified = true;
  sha256 = λ b. b;
  ed25519_verify = λ k m p. true;
  address_xdr = λ a. a ∷ [];
  ledger_xdr = λ t n a. t ∷ n ∷ a ∷ [];
  request_xdr = λ t n a. t ∷ n ∷ a;
  vrf_message_xdr = λ a r. a ∷ r ∷ [];
}

abbrev pub balances : Balances
balances = λ token holder. pos 1_000_000

-- The state after a call, where it succeeds.
pub after : Env → Request → Contract → Contract
unfolding perform
after env request s = elim (perform env request s) [ ok t ↦ t | err e ↦ s | trap ↦ s ]

pub deployed_state : Contract
deployed_state = empty_contract balances

pub initialized : Contract
initialized = after host (on_init 2 3 4 config) deployed_state

pub initialized_ok : perform host (on_init 2 3 4 config) deployed_state ≡ ok initialized
unfolding initialized after deployed_state empty_contract ◌>>=◌
initialized_ok = refl

pub funded : Contract
funded = after host on_deposit_prize initialized

pub funded_ok : perform host on_deposit_prize initialized ≡ ok funded
unfolding funded initialized after deployed_state empty_contract ◌>>=◌ can_transition_to
funded_ok = refl

pub sold_out : Contract
sold_out = after host (on_buy_tickets 9 2) funded

pub sold_out_ok : perform host (on_buy_tickets 9 2) funded ≡ ok sold_out
unfolding sold_out funded initialized after deployed_state empty_contract early_bird_discount
    checked_mul checked_sub checked_add div_ℤ ◌>>=◌ can_transition_to
sold_out_ok = refl

-- The sale of the last ticket has begun the drawing.
pub sold_out-drawing : in_drawing sold_out.raffle ≡ true
unfolding sold_out funded initialized after deployed_state empty_contract early_bird_discount
    checked_mul checked_sub checked_add div_ℤ ◌>>=◌ can_transition_to status_eq
sold_out-drawing = refl

pub sold_out-Reachable : Reachable sold_out
unfolding deployed_state
sold_out-Reachable =
    called host (on_buy_tickets 9 2)
      (called host on_deposit_prize
        (called host (on_init 2 3 4 config) (deployed balances) initialized_ok) funded_ok)
      sold_out_ok

abbrev pub raffle : Raffle
raffle = new_raffle 4 config

pub quoted : BuyQuote
quoted = record {
  gross = pos 20_000;
  discount = pos 2_000;
  fee = pos 180;
  net_to_pay = pos 18_000;
  effective_ticket_price = pos 9_000;
}

pub quoted_ok : calculate_buy_quote raffle 2 ≡ ok quoted
unfolding calculate_buy_quote early_bird_discount checked_mul checked_sub div_ℤ quoted ◌>>=◌
quoted_ok = refl

-- The raffle drawn, with the prize of one of its two winners claimed.
pub half_claimed : Raffle
half_claimed = record raffle {
  prize_deposited = true;
  status = finalized;
  winners = record { address = 9; claimed = true } ∷ record { address = 8; claimed = false } ∷ [];
}

pub half_claimed_ok : outstanding_prize half_claimed ≡ ok (pos 8_000)
unfolding half_claimed outstanding_prize checked_mul checked_add div_ℤ status_eq ◌>>=◌
half_claimed_ok = refl

-- A raffle with one prize, drawn, and one with a refundable ticket.
pub won : Contract
unfolding empty_contract
won = record (empty_contract balances) {
  raffle = some (record raffle {
    prizes = 10_000 ∷ [];
    status = finalized;
    winners = record { address = 9; claimed = false } ∷ [];
    finalized_at = some 0;
  });
}

pub paid : ℤ × Contract
unfolding claim_prize
paid = elim (claim_prize host 9 0 won) [ ok r ↦ r | err e ↦ (pos 0, won) | trap ↦ (pos 0, won) ]

pub paid_ok : claim_prize host 9 0 won ≡ ok paid
unfolding paid won checked_mul checked_sub checked_add div_ℤ status_eq ◌>>=◌ can_transition_to
paid_ok = refl

pub called_off : Contract
unfolding empty_contract
called_off = record (empty_contract balances) {
  raffle = some (record raffle { status = cancelled; tickets_sold = 1 });
  tickets = λ i. some (record {
    id = 1;
    owner = 9;
    purchase_time = 0;
    ticket_number = 1;
    payer = 9;
    price_paid = pos 10_000;
  });
}

pub refunded : ℤ × Contract
unfolding refund_ticket
refunded = elim (refund_ticket host 1 called_off) [
  | ok r ↦ r
  | err e ↦ (pos 0, called_off)
  | trap ↦ (pos 0, called_off)
]

pub refunded_ok : refund_ticket host 1 called_off ≡ ok refunded
unfolding refunded called_off status_eq ◌>>=◌
refunded_ok = refl

pub raffle_of : Contract → Raffle
raffle_of s = elim s.raffle [ none ↦ raffle | some r ↦ r ]

pub stored : Raffle
stored = raffle_of funded

pub stored_ok : funded.raffle ≡ some stored
unfolding stored raffle_of funded initialized after deployed_state empty_contract ◌>>=◌
    can_transition_to
stored_ok = refl

pub sold : ℕ × Contract
unfolding buy_tickets
sold = elim (buy_tickets host 9 2 funded) [ ok r ↦ r | err e ↦ (0, funded) | trap ↦ (0, funded) ]

pub sold_ok : buy_tickets host 9 2 funded ≡ ok sold
unfolding sold funded initialized after deployed_state empty_contract calculate_buy_quote
    early_bird_discount checked_mul checked_sub checked_add div_ℤ ◌>>=◌ can_transition_to
sold_ok = refl

pub scheduled : Contract
scheduled = after host (on_cancel_raffle admin_cancelled) funded

pub scheduled_ok : cancel_raffle host admin_cancelled funded ≡ ok scheduled
unfolding scheduled funded initialized after deployed_state empty_contract cancel_raffle ◌>>=◌
    can_transition_to
scheduled_ok = refl

pub later : Env
later = record host { timestamp = 300_000 }

pub executed : Contract
executed = after later on_execute_admin_cancel scheduled

pub executed_ok : execute_admin_cancel later scheduled ≡ ok executed
unfolding executed later scheduled funded initialized after deployed_state empty_contract
    execute_admin_cancel status_eq ◌>>=◌ can_transition_to
executed_ok = refl

pub rescued : Contract
rescued = after host (on_rescue_tokens 50 9 (pos 5)) funded

pub rescued_ok : rescue_tokens host 50 9 (pos 5) funded ≡ ok rescued
unfolding rescued funded initialized after deployed_state empty_contract rescue_tokens checked_sub
    checked_add status_eq ◌>>=◌ can_transition_to
rescued_ok = refl

pub swept : ℕ × Contract
unfolding sweep_unclaimed
swept = elim (sweep_unclaimed (record host { timestamp = 3_000_000 }) 0 99 won) [
  | ok r ↦ r
  | err e ↦ (0, won)
  | trap ↦ (0, won)
]

-- The prize of the winner who never came has gone to the treasury.
pub swept_ok : sweep_unclaimed (record host { timestamp = 3_000_000 }) 0 99 won ≡ ok (1, swept.1)
unfolding swept won checked_mul checked_sub checked_add div_ℤ status_eq ◌>>=◌ can_transition_to
swept_ok = refl

pub allowed_ok : get_remaining_ticket_allowance 9 funded ≡ ok 2
unfolding get_remaining_ticket_allowance funded initialized after deployed_state empty_contract
    ◌>>=◌ can_transition_to
allowed_ok = refl

-- The amounts of the funded raffle.
pub stored_price : stored.ticket_price ≡ pos 10_000
unfolding stored raffle_of funded initialized after deployed_state empty_contract ◌>>=◌
    can_transition_to status_eq
stored_price = refl

pub stored_fees : funded.accumulated_fees ≡ pos 0
unfolding stored raffle_of funded initialized after deployed_state empty_contract ◌>>=◌
    can_transition_to status_eq
stored_fees = refl

pub stored_prize : stored.prize_amount ≡ pos 20_000
unfolding stored raffle_of funded initialized after deployed_state empty_contract ◌>>=◌
    can_transition_to status_eq
stored_prize = refl

pub stored_open : is_open stored ≡ true
unfolding stored raffle_of funded initialized after deployed_state empty_contract ◌>>=◌
    can_transition_to status_eq
stored_open = refl

pub half_claimed_prize : half_claimed.prize_amount ≡ pos 20_000
unfolding half_claimed
half_claimed_prize = refl

pub half_claimed_shares : sum half_claimed.prizes ≤ 10_000
unfolding half_claimed
half_claimed_shares = omega arith
