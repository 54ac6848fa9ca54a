-- ===== src/Instance/Tickets/Sales.antt =====
-- The storage after `buy_tickets` (contracts/raffle-instance/src/tickets.rs).
use mathlib.Core.Path.{subst}
use tikka_contracts.Prelude.{
  false, ap, sym, ℕ, ◌+◌, ◌≤◌, ◌<◌, ◌≡◌, ◌∙◌, false, ◌^◌, ◌&&◌, some, arith, if◌then◌else◌, ltb,
  leb, ◌==◌,
}
use tikka_contracts.Prelude.Outcome.{
  ok, ok_or, Returns, Returns-bind, Returns-ok, Returns-then, ok_or-eq-ok,
}
use tikka_contracts.Shared.Types.{Address, Ticket}
use tikka_contracts.Instance.State.{Raffle, Contract, Env, not_initialized}
use tikka_contracts.Instance.Helpers.{bump_raffle_ttl, write_raffle}
use tikka_contracts.Instance.Tickets.{bought_ticket, buy_tickets}
use tikka_contracts.Instance.Tickets.Steps.{
  SameSales, validate-SameSales, IsCapped, check_caps-IsCapped, try_transfer-SameSales,
  collect_fee-SameSales, IsIssued, IsRecorded, record_purchase-IsRecorded, with_sold,
  begin_drawing-keeps, bump_raffle_ttl-SameSales,
}

-- A ticket as it is stored: its id is its number, its owner has paid for it, and its price is the list
-- price, without the early-bird discount.
abbrev pub listed_ticket : Env → Raffle → Address → ℕ → Ticket
listed_ticket env raffle buyer id = record {
  id = id;
  owner = buyer;
  purchase_time = env.timestamp;
  ticket_number = id;
  payer = buyer;
  price_paid = raffle.ticket_price;
}

-- What a purchase of `quantity` tickets by `buyer` comes to: the number of tickets sold is returned and
-- within the maximum, the quantity and the buyer's count are within their caps, the count has grown by
-- the quantity, exactly the next `quantity` ids hold new tickets of the buyer at the list price, and the
-- stored raffle is as before but for the tickets sold, and in drawing where that was the last one.
pub record IsPurchase (env : Env) (raffle : Raffle) (buyer : Address) (quantity : ℕ) (s : Contract)
    (r : ℕ × Contract) : Type 0 where
  pub returned : r.0 ≡ raffle.tickets_sold + quantity
  pub within : r.0 ≤ raffle.max_tickets
  pub fits : r.0 < 2 ^ 32
  pub stored : r.1.raffle ≡ some (with_sold r.0 raffle)
  pub some_bought : 0 < quantity
  pub per_tx : quantity ≤ raffle.max_tickets_per_tx
  pub per_address :
      0 < raffle.max_tickets_per_address → r.1.ticket_count buyer ≤ raffle.max_tickets_per_address
  pub single :
      raffle.max_tickets_per_address ≡ 0
      → raffle.allow_multiple ≡ false
      → r.1.ticket_count buyer ≤ 1
  pub count : r.1.ticket_count buyer ≡ s.ticket_count buyer + quantity
  pub others : (a : Address) → (a == buyer) ≡ false → r.1.ticket_count a ≡ s.ticket_count a
  pub issued :
      IsIssued (listed_ticket env raffle buyer) raffle.tickets_sold quantity s.tickets r.1.tickets

purchase :
    (env : Env) (raffle : Raffle) (buyer : Address) (quantity : ℕ) (s s1 s3 t : Contract)
    (m : Raffle × Contract) (n : ℕ)
    → SameSales s s1 × (0 < quantity) × (quantity ≤ raffle.max_tickets_per_tx)
    → IsCapped raffle (s1.ticket_count buyer) quantity
    → SameSales s1 s3
    → IsRecorded env raffle buyer quantity s3 m
    → SameSales m.1 t
    → t.raffle ≡ some (with_sold m.0.tickets_sold m.0)
    → n ≡ m.0.tickets_sold
    → IsPurchase env raffle buyer quantity s (n, t)
purchase env raffle buyer quantity s s1 s3 t m n v c same w kept raffled sold = record {
  returned = returned;
  fits = omega (arith, returned, w.fits);
  stored =
      raffled
      ∙ ap (λ x. some (with_sold x.tickets_sold x)) w.sold
      ∙ ap (λ k. some (with_sold k raffle)) (sym returned);
  within = omega (arith, returned, c.0);
  some_bought = v.1;
  per_tx = v.2;
  per_address = λ h. omega (arith, counted, c.1 h, before1);
  single = λ h k. omega (arith, counted, c.2 h k, before1);
  count = counted;
  others =
      λ a ne. ap (λ f. f a) kept.1 ∙ w.others a ne ∙ ap (λ f. f a) same.1 ∙ ap (λ f. f a) v.0.1;
  issued = λ id.
      ap (λ f. f id) kept.0
      ∙ w.issued id
      ∙ ap
          (λ x.
            if ltb raffle.tickets_sold id && leb id (raffle.tickets_sold + quantity)
            then some (bought_ticket env raffle buyer id)
            else x)
          (ap (λ f. f id) (same.0 ∙ v.0.0));
}
  where
    returned : n ≡ raffle.tickets_sold + quantity
    returned = sold ∙ ap (λ x. x.tickets_sold) w.sold

    before1 : s1.ticket_count buyer ≡ s.ticket_count buyer
    before1 = ap (λ f. f buyer) v.0.1

    counted : t.ticket_count buyer ≡ s.ticket_count buyer + quantity
    counted = ap (λ f. f buyer) kept.1 ∙ w.count ∙ ap (λ f. f buyer + quantity) (same.1 ∙ v.0.1)

buy_tickets-Returns :
    (env : Env) (raffle : Raffle) (buyer : Address) (quantity : ℕ) (s : Contract)
    → s.raffle ≡ some raffle
    → Returns (IsPurchase env raffle buyer quantity s) (buy_tickets env buyer quantity s)
unfolding buy_tickets
buy_tickets-Returns env raffle buyer quantity s h = Returns-bind _ _ (λ _ _.
    Returns-bind _ _ (λ r e. Returns-then _ (validate-SameSales env r quantity s) (λ s1 v.
      Returns-then _ (check_caps-IsCapped r (s1.ticket_count buyer) quantity) (λ _ c.
        Returns-bind _ _ (λ q _. Returns-bind _ _ (λ _ _.
          Returns-then _
            (try_transfer-SameSales env r.payment_token buyer env.current_contract_address
              q.net_to_pay s1)
            (λ s2 p. Returns-then _ (collect_fee-SameSales env r q.fee s2) (λ s3 f.
              Returns-then _ (record_purchase-IsRecorded env r buyer quantity s3) (λ m w.
                Returns-then _ (begin_drawing-keeps env m.0 m.1) (λ d k. Returns-bind _ _ (λ _ _.
                  Returns-ok
                    (d.0.tickets_sold, bump_raffle_ttl d.0.tickets_sold (write_raffle d.0 d.1))
                    (subst
                      (λ x.
                        IsPurchase env x buyer quantity s (
                          d.0.tickets_sold,
                          bump_raffle_ttl d.0.tickets_sold (write_raffle d.0 d.1),
                        ))
                      (same_raffle r e)
                      (purchase env r buyer quantity s s1 s3 _ m _ v c (f.0 ∙ p.0, f.1 ∙ p.1) w
                        (after d m k).0 (after d m k).1 (ap (λ x. x.tickets_sold) k.1))))))))))))))
  where
    same_raffle : (read : Raffle) → ok_or s.raffle not_initialized ≡ ok read → read ≡ raffle
    same_raffle read e = let found = ok_or-eq-ok s.raffle not_initialized e in cc

    after :
        (d m : Raffle × Contract)
        → SameSales m.1 d.1 × (d.0 ≡ with_sold m.0.tickets_sold m.0)
        → SameSales m.1 (bump_raffle_ttl d.0.tickets_sold (write_raffle d.0 d.1))
          × ((bump_raffle_ttl d.0.tickets_sold (write_raffle d.0 d.1)).raffle
              ≡ some (with_sold m.0.tickets_sold m.0))
    after d m k =
        let b = bump_raffle_ttl-SameSales d.0.tickets_sold (write_raffle d.0 d.1) in
        ((b.0.0 ∙ k.0.0, b.0.1 ∙ k.0.1), b.1 ∙ ap some k.1)

-- Where `buy_tickets` succeeds on a state that holds `raffle`, it comes to a purchase as `IsPurchase`
-- describes it: the number of tickets sold is returned and within the maximum, the quantity and the
-- buyer's count are within their caps, no other count changes, exactly the next `quantity` ids hold new
-- tickets of the buyer, each at the list price and not at the price less the early-bird discount, and the
-- stored raffle is the old one with the new number of tickets sold and, where that is the greatest number,
-- the status Drawing.
pub buy_tickets-IsPurchase :
    (env : Env) (raffle : Raffle) (buyer : Address) (quantity : ℕ) (s : Contract) (r : ℕ × Contract)
    → s.raffle ≡ some raffle
    → buy_tickets env buyer quantity s ≡ ok r
    → IsPurchase env raffle buyer quantity s r
buy_tickets-IsPurchase env raffle buyer quantity s r h e =
    (buy_tickets-Returns env raffle buyer quantity s h).at e
