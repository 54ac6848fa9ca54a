-- ===== src/Tests.antt =====
-- The theorems at concrete inputs; Samples holds the inputs and the runs.
pub mod Factories
pub mod FactoryRuns
pub mod Samples
use tikka_contracts.Prelude.{
  ℕ, ◌≡◌, ◌≢◌, ◌↔◌, ◌+◌, ◌<◌, ◌≤◌, refl, true, false, none, some, List, [], ◌∷◌, arith, min, ◌-◌,
  if◌then◌else◌, length, IsDistinct, All, replicate,
}
use tikka_contracts.Prelude.Int.{ℤ, pos, negsuc, ◌≤ℤ◌, checked_mul, checked_add, checked_sub, div_ℤ}
use tikka_contracts.Prelude.Outcome.{ok, err, trap, ◌>>=◌}
use tikka_contracts.Shared.Types.{RaffleConfig, external, BuyQuote, resolve_defaults}
use tikka_contracts.Shared.Status.{
  RaffleStatus, pending_prize, active, drawing, finalized, cancelled, is_terminal,
  can_transition_to, status_eq,
}
use tikka_contracts.Shared.Status.Lifecycle.{stay, move, Run-bounded, is_terminal_iff}
use tikka_contracts.Shared.Validate.{validate_config, with_address_cap}
use tikka_contracts.Shared.Validate.Accepts.{sum, IsAcceptable, validate_config_iff}
use tikka_contracts.Randomness.Rejection.{sample, largest_multiple}
use tikka_contracts.Randomness.Rejection.Escape.{sample_total}
use tikka_contracts.Randomness.Shuffle.{DrawState, start_draw, draw_rounds, select_winner_indices}
use tikka_contracts.Randomness.Shuffle.Selection.{
  select_winner_indices_total, draw_rounds_keep_seed,
}
use tikka_contracts.Instance.State.{Raffle, Contract, Env, Balances}
use tikka_contracts.Instance.Init.{new_raffle}
use tikka_contracts.Instance.Quote.{calculate_buy_quote, early_bird_discount}
use tikka_contracts.Instance.Claim.{claim_prize, refund_ticket}
use tikka_contracts.Instance.Claim.Once.{no_second_claim, no_second_refund}
use tikka_contracts.Instance.Claim.Sweep.{sweep_unclaimed-le}
use tikka_contracts.Instance.Views.Allowance.{is_uncapped, buy_tickets-within_allowance}
use tikka_contracts.Instance.Views.{get_remaining_ticket_allowance}
use tikka_contracts.Tests.Samples.{stored_price, stored_fees, stored_prize, stored_open, allowed_ok}
use tikka_contracts.Tests.Samples.{swept, swept_ok}
use tikka_contracts.Instance.Draw.{trigger_randomness_fallback}
use tikka_contracts.Instance.Phase.{IsPhased, in_drawing}
use tikka_contracts.Instance.Calls.{
  Request, on_init, on_deposit_prize, on_buy_tickets, perform, empty_contract, Reachable, deployed,
  called,
}
use tikka_contracts.Instance.Calls.Invariant.{Reachable-IsPhased, fallback_never_succeeds}
use tikka_contracts.Prelude.Int.{◌+ℤ◌}
use tikka_contracts.Shared.Types.{admin_cancelled}
use tikka_contracts.Instance.Tickets.{buy_tickets}
use tikka_contracts.Instance.Tickets.Sales.{IsPurchase, buy_tickets-IsPurchase}
use tikka_contracts.Instance.Admin.{cancel_raffle, execute_admin_cancel}
use tikka_contracts.Instance.Admin.Guards.{cancel_timelock}
use tikka_contracts.Instance.Admin.Rescue.{dues, rescue_keeps_dues}
use tikka_contracts.Instance.Calls.{on_cancel_raffle, on_execute_admin_cancel, on_rescue_tokens}
use tikka_contracts.Tests.Samples.{
  config, host, balances, after, deployed_state, initialized, initialized_ok, funded, funded_ok,
  sold_out, sold_out_ok, sold_out-drawing, sold_out-Reachable, won, paid, paid_ok, called_off,
  refunded, refunded_ok, raffle_of, stored, stored_ok, sold, sold_ok, scheduled, scheduled_ok,
  later, executed, executed_ok, rescued, rescued_ok,
}

Reachable-IsPhased_example : IsPhased sold_out
Reachable-IsPhased_example = Reachable-IsPhased sold_out-Reachable

fallback_never_succeeds_example : trigger_randomness_fallback host 4 true sold_out ≢ ok sold_out
fallback_never_succeeds_example = fallback_never_succeeds host 4 true sold_out-Reachable sold_out

Run-bounded_example : (2 ≤ 4) × (pending_prize ≡ drawing → ◌≡◌ {A = ℕ} 2 0)
Run-bounded_example =
    Run-bounded (
      move {t = active} (move {t = pending_prize} (stay refl) allowed_first refl) allowed_next refl)
  where
    allowed_first : can_transition_to pending_prize active ≡ true
    allowed_first = unfold can_transition_to in refl

    allowed_next : can_transition_to active drawing ≡ true
    allowed_next = unfold can_transition_to in refl

is_terminal_iff_example :
    (is_terminal cancelled ≡ true) ↔ ((t : RaffleStatus) → can_transition_to cancelled t ≡ false)
is_terminal_iff_example = is_terminal_iff cancelled

validate_config_iff_example :
    (validate_config 100 (λ t. true) config (some 1)
      ≡ ok (resolve_defaults (with_address_cap config)))
    ↔ (IsAcceptable 100 (λ t. true) (some 1) config
        × (resolve_defaults (with_address_cap config) ≡ resolve_defaults (with_address_cap config)))
validate_config_iff_example =
    validate_config_iff 100 (λ t. true) (some 1) config (resolve_defaults (with_address_cap config))

sample_total_example :
    (c : ℕ) × (sample 2 (largest_multiple 3) 12_345 ≡ some c) × (c < largest_multiple 3)
sample_total_example = sample_total 0 3 12_345 (omega arith) (omega arith) (omega arith)

select_winner_indices_total_example :
    (indices : List ℕ) × (select_winner_indices 2 12_345 5 3 ≡ some indices)
    × (length indices ≡ min 3 5)
    × IsDistinct indices
    × All (λ i. i < 5) indices
select_winner_indices_total_example =
    select_winner_indices_total 0 12_345 5 3 (omega arith) (omega arith)

draw_rounds_keep_seed_example :
    (e : DrawState) × (draw_rounds 1 3 (start_draw 12_345 5) ≡ some e) × (e.current_seed ≡ 12_345)
draw_rounds_keep_seed_example =
    draw_rounds_keep_seed 0 3 (start_draw 12_345 5) (omega arith) (omega arith)

no_second_claim_example : claim_prize host 8 0 paid.1 ≢ ok (pos 0, won)
no_second_claim_example = no_second_claim host host 9 8 0 won paid.1 paid (pos 0, won) paid_ok refl

no_second_refund_example : refund_ticket host 1 refunded.1 ≢ ok (pos 0, called_off)
no_second_refund_example =
    no_second_refund host host 1 called_off refunded.1 refunded (pos 0, called_off) refunded_ok refl

buy_tickets-IsPurchase_example : IsPurchase host stored 9 2 funded sold
buy_tickets-IsPurchase_example =
    buy_tickets-IsPurchase host stored 9 2 funded sold stored_ok sold_ok

cancel_timelock_example : host.timestamp + 172_800 ≤ later.timestamp
cancel_timelock_example =
    cancel_timelock host later funded scheduled scheduled executed scheduled_ok refl executed_ok

rescue_keeps_dues_example :
    pos (dues stored 50 funded 10_000 0 20_000) +ℤ pos 5 ≤ℤ funded.balances 50 1
rescue_keeps_dues_example =
    rescue_keeps_dues host stored 50 9 (pos 5) 10_000 0 20_000 funded rescued stored_ok stored_price
      stored_fees stored_prize stored_open rescued_ok

sweep_unclaimed-le_example : 1 ≤ 10
sweep_unclaimed-le_example =
    sweep_unclaimed-le (record host { timestamp = 3_000_000 }) 0 99 won swept.1 1 swept_ok

buy_tickets-within_allowance_example :
    (2 ≤ 2)
    × (get_remaining_ticket_allowance 9 sold.1 ≡ ok (if is_uncapped stored then 2 else 2 - 2))
buy_tickets-within_allowance_example =
    buy_tickets-within_allowance host 9 2 2 funded stored sold stored_ok allowed_ok sold_ok
