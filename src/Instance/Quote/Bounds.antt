-- ===== src/Instance/Quote/Bounds.antt =====
-- The amounts of `calculate_buy_quote` (contracts/raffle-instance/src/helpers.rs, lines 398-445).
use tikka_contracts.Prelude.{ℕ, ◌*◌, ◌/◌, ◌-◌, ltb, ◌&&◌, ◌≤◌, ◌≡◌, if◌then◌else◌}
use tikka_contracts.Prelude.Int.{ℤ, pos}
use tikka_contracts.Shared.Types.{BuyQuote}
use tikka_contracts.Instance.State.{Raffle}

-- The number `k`, which is at most `a`.
abbrev IsPart : ℕ → ℕ → ℤ → Type 0
IsPart a k x = (x ≡ pos k) × (k ≤ a)

-- The discount on a gross amount: its rate, while fewer tickets are sold than the given percentage.
abbrev pub discount_due : Raffle → ℕ → ℕ
discount_due raffle gross =
    if ltb 0 raffle.early_bird_discount_bp
      && ltb raffle.tickets_sold (raffle.max_tickets * raffle.early_bird_ticket_percentage / 100)
    then gross * raffle.early_bird_discount_bp / 10_000
    else 0

-- The amounts of a quote for `gross`, which is the list price of what is bought.
pub record IsFair (raffle : Raffle) (gross : ℕ) (q : BuyQuote) : Type 0 where
  pub discount : ℕ
  pub fee : ℕ
  pub gross_is : q.gross ≡ pos gross
  pub discount_is : q.discount ≡ pos discount
  pub discount_rate : discount ≡ discount_due raffle gross
  pub fee_is : q.fee ≡ pos fee
  pub fee_rate : fee ≡ (gross - discount) * raffle.protocol_fee_bp / 10_000
  pub discounted : discount ≤ gross
  pub net_is : q.net_to_pay ≡ pos (gross - discount)
  pub fee_in_net : fee ≤ gross - discount
