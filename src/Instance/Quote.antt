-- ===== src/Instance/Quote.antt =====
-- `calculate_buy_quote` of contracts/raffle-instance/src/helpers.rs. The file declares it four times:
-- this is the version on lines 398-445, whose result has the fields that `buy_tickets` reads.
pub mod Bounds
use tikka_contracts.Prelude.{ℕ, ◌*◌, ◌/◌, ◌^◌, ◌&&◌, ltb, ◌==◌, if◌then◌else◌}
use tikka_contracts.Prelude.Int.{ℤ, pos, checked_mul, checked_sub, div_ℤ}
use tikka_contracts.Prelude.Outcome.{ok, err, ◌>>=◌, ◌>>◌, reject_if, ok_or}
use tikka_contracts.Shared.Types.{BuyQuote}
use tikka_contracts.Instance.State.{Raffle, Call, invalid_quantity, arithmetic_overflow}
use tikka_contracts.Instance.Helpers.{checked_u64}

unfoldable pub discount_of : Raffle → ℤ → Call ℤ
discount_of raffle gross = do
  scaled ← ok_or (checked_mul gross (pos raffle.early_bird_discount_bp)) arithmetic_overflow
  ok (div_ℤ scaled 10_000)

-- The discount on `gross`, while fewer tickets are sold than the early-bird threshold.
unfoldable pub early_bird_discount : Raffle → ℤ → Call ℤ
unfolding discount_of
early_bird_discount raffle gross =
    if ltb 0 raffle.early_bird_discount_bp && ltb 0 raffle.early_bird_ticket_percentage
    then (do
      product ←
          ok_or (checked_u64 (raffle.max_tickets * raffle.early_bird_ticket_percentage))
            arithmetic_overflow
      if ltb raffle.tickets_sold (product / 100) then discount_of raffle gross else ok (pos 0))
    else ok (pos 0)

unfoldable pub calculate_buy_quote : Raffle → ℕ → Call BuyQuote
calculate_buy_quote raffle quantity = do
  reject_if (quantity == 0) invalid_quantity
  gross ← ok_or (checked_mul raffle.ticket_price (pos quantity)) arithmetic_overflow
  discount ← early_bird_discount raffle gross
  net_to_pay ← ok_or (checked_sub gross discount) arithmetic_overflow
  charged ← ok_or (checked_mul net_to_pay (pos raffle.protocol_fee_bp)) arithmetic_overflow
  ok (record {
    gross = gross;
    discount = discount;
    fee = div_ℤ charged 10_000;
    net_to_pay = net_to_pay;
    effective_ticket_price = div_ℤ net_to_pay quantity;
  })
