-- ===== src/Instance/Views/Allowance.antt =====
-- The allowance that is shown against the purchases that succeed.
use tikka_contracts.Prelude.{
  ℕ, ◌+◌, ◌-◌, ◌^◌, ◌≤◌, ◌≡◌, ap, sym, ◌∙◌, Bool, ◌&&◌, ◌==◌, if◌then◌else◌, some, arith,
}
use tikka_contracts.Prelude.Outcome.{ok, ◌>>=◌}
use tikka_contracts.Shared.Types.{Address}
use tikka_contracts.Instance.State.{Raffle, Contract, Env}
use tikka_contracts.Instance.Tickets.{buy_tickets}
use tikka_contracts.Instance.Tickets.Sales.{IsPurchase, buy_tickets-IsPurchase}
use tikka_contracts.Instance.Tickets.Steps.{with_sold}
use tikka_contracts.Instance.Views.{get_remaining_ticket_allowance}

-- No cap on the tickets of an address.
abbrev pub is_uncapped : Raffle → Bool
is_uncapped raffle = raffle.max_tickets_per_address == 0 && raffle.allow_multiple

abbrev allowance_of : Raffle → ℕ → ℕ
allowance_of raffle held =
    if is_uncapped raffle
    then 2 ^ 32 - 1
    else if raffle.max_tickets_per_address == 0
    then 1 - held
    else raffle.max_tickets_per_address - held

allowance_lem :
    (owner : Address) (s : Contract) (raffle : Raffle)
    → s.raffle ≡ some raffle
    → get_remaining_ticket_allowance owner s ≡ ok (allowance_of raffle (s.ticket_count owner))
unfolding get_remaining_ticket_allowance ◌>>=◌
allowance_lem owner s raffle h = rw h (ground arith)

purchase_within :
    (env : Env) (buyer : Address) (quantity : ℕ) (s : Contract) (r : ℕ × Contract) (raffle : Raffle)
    → IsPurchase env raffle buyer quantity s r
    → quantity ≤ allowance_of raffle (s.ticket_count buyer)
purchase_within env buyer quantity s r raffle p =
    ground (arith, p.returned, p.fits, p.per_address, p.single, p.count)

left_after :
    (raffle : Raffle) (held quantity allowance : ℕ)
    → allowance ≡ allowance_of raffle held
    → allowance_of raffle (held + quantity)
      ≡ (if is_uncapped raffle then allowance else allowance - quantity)
left_after raffle held quantity allowance e = ground (arith, e)

-- A purchase that succeeds is no larger than the allowance that is shown for the buyer before it; after it
-- the allowance shown is smaller by the quantity bought, or as it was where the raffle has no cap on the
-- tickets of an address.
pub buy_tickets-within_allowance :
    (env : Env) (buyer : Address) (quantity allowance : ℕ) (s : Contract) (raffle : Raffle)
    (r : ℕ × Contract)
    → s.raffle ≡ some raffle
    → get_remaining_ticket_allowance buyer s ≡ ok allowance
    → buy_tickets env buyer quantity s ≡ ok r
    → (quantity ≤ allowance)
      × (get_remaining_ticket_allowance buyer r.1
          ≡ ok (if is_uncapped raffle then allowance else allowance - quantity))
buy_tickets-within_allowance env buyer quantity allowance s raffle r stored shown bought = (
  omega (arith, is_shown, purchase_within env buyer quantity s r raffle purchase),
  allowance_lem buyer r.1 (with_sold r.0 raffle) purchase.stored
      ∙ ap (λ n. ok (allowance_of raffle n)) purchase.count
      ∙ ap ok (left_after raffle (s.ticket_count buyer) quantity allowance is_shown),
)
  where
    purchase : IsPurchase env raffle buyer quantity s r
    purchase = buy_tickets-IsPurchase env raffle buyer quantity s r stored bought

    is_shown : allowance ≡ allowance_of raffle (s.ticket_count buyer)
    is_shown = let e = sym shown ∙ allowance_lem buyer s raffle stored in cc
