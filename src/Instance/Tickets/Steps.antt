-- ===== src/Instance/Tickets/Steps.antt =====
-- What the steps of `buy_tickets` (contracts/raffle-instance/src/tickets.rs) keep and write.
use tikka_contracts.Prelude.{
  false, ap, ℕ, zero, suc, ◌+◌, ◌≤◌, ◌<◌, ◌≡◌, false, ◌^◌, ◌&&◌, Option, some, arith, if◌then◌else◌,
  ltb, leb, ◌==◌,
}
use tikka_contracts.Prelude.Int.{ℤ}
use tikka_contracts.Prelude.Outcome.{
  ok, ◌>>=◌, ok_or, Returns, Returns-Ensures, Returns-bind, Returns-ok, Returns-then, ok_or-eq-ok,
}
use tikka_contracts.Shared.Types.{Address, Ticket}
use tikka_contracts.Shared.Status.{drawing}
use tikka_contracts.Instance.State.{Raffle, Contract, Env, update, arithmetic_overflow}
use tikka_contracts.Instance.Helpers.{checked_u32, try_transfer, bump_raffle_ttl}
use tikka_contracts.Instance.Tickets.{
  validate_purchase_preconditions, check_caps, collect_fee, issue_tickets, bought_ticket,
  record_purchase, begin_drawing,
}

-- Two states with the same tickets and counts.
abbrev pub SameSales : Contract → Contract → Type 0
SameSales s t = (t.tickets ≡ s.tickets) × (t.ticket_count ≡ s.ticket_count)

pub validate-SameSales :
    (env : Env) (raffle : Raffle) (quantity : ℕ) (s : Contract)
    → Returns
        (λ t. SameSales s t × (0 < quantity) × (quantity ≤ raffle.max_tickets_per_tx))
        (validate_purchase_preconditions env raffle quantity s)
unfolding validate_purchase_preconditions ◌>>=◌
validate-SameSales env raffle quantity s = Returns-Ensures _ (ground arith)

-- The caps of the raffle and of the buyer.
abbrev pub IsCapped : Raffle → ℕ → ℕ → Type 0
IsCapped raffle count quantity =
    (raffle.tickets_sold + quantity ≤ raffle.max_tickets)
    × (0 < raffle.max_tickets_per_address → count + quantity ≤ raffle.max_tickets_per_address)
    × (raffle.max_tickets_per_address ≡ 0 → raffle.allow_multiple ≡ false → count + quantity ≤ 1)

pub check_caps-IsCapped :
    (raffle : Raffle) (count quantity : ℕ)
    → Returns (λ _. IsCapped raffle count quantity) (check_caps raffle count quantity)
unfolding check_caps ◌>>=◌
check_caps-IsCapped raffle count quantity = Returns-Ensures _ (ground arith)

pub try_transfer-SameSales :
    (env : Env) (token from to : Address) (amount : ℤ) (s : Contract)
    → Returns (SameSales s) (try_transfer env token from to amount s)
unfolding try_transfer ◌>>=◌
try_transfer-SameSales env token from to amount s = Returns-Ensures _ (ground arith)

pub collect_fee-SameSales :
    (env : Env) (raffle : Raffle) (fee : ℤ) (s : Contract)
    → Returns (SameSales s) (collect_fee env raffle fee s)
unfolding collect_fee ◌>>=◌
collect_fee-SameSales env raffle fee s = Returns-Ensures _ (ground arith)

-- The tickets above `first`, up to `count` of them, are new; all others are as they were.
abbrev pub IsIssued : (ℕ → Ticket) → ℕ → ℕ → (ℕ → Option Ticket) → (ℕ → Option Ticket) → Type 0
IsIssued new_ticket first count before after =
    (id : ℕ)
    → after id
      ≡ (if ltb first id && leb id (first + count) then some (new_ticket id) else before id)

-- The number that a checked sum returns.
pub checked_u32_lem : {id : ℕ} (n : ℕ) → ok_or (checked_u32 n) arithmetic_overflow ≡ ok id → id ≡ n
checked_u32_lem {id} n e = found (ok_or-eq-ok (checked_u32 n) arithmetic_overflow e)
  where
    found : checked_u32 n ≡ some id → id ≡ n
    found h = ground arith

pub checked_u32_fits :
    {id : ℕ} (n : ℕ) → ok_or (checked_u32 n) arithmetic_overflow ≡ ok id → n < 2 ^ 32
checked_u32_fits {id} n e = found (ok_or-eq-ok (checked_u32 n) arithmetic_overflow e)
  where
    found : checked_u32 n ≡ some id → n < 2 ^ 32
    found h = ground arith

pub issue_next :
    (new_ticket : ℕ → Ticket) (first id count : ℕ) (before after : ℕ → Option Ticket)
    → id ≡ first + 1
    → IsIssued new_ticket (first + 1) count (update before id (some (new_ticket id))) after
    → IsIssued new_ticket first (suc count) before after
issue_next new_ticket first id count before after e h j = let at_j = h j in ground arith

pub issue_tickets-IsIssued :
    (new_ticket : ℕ → Ticket) (sold i count : ℕ) (tickets : ℕ → Option Ticket)
    → Returns
        (IsIssued new_ticket (sold + i) count tickets)
        (issue_tickets new_ticket sold i count tickets)
unfolding issue_tickets
issue_tickets-IsIssued new_ticket sold i zero tickets = Returns-ok tickets (λ id. ground arith)
issue_tickets-IsIssued new_ticket sold i (suc count) tickets = Returns-bind _ _ (λ id e.
    let rest =
      issue_tickets-IsIssued new_ticket sold (i + 1) count
        (update tickets id (some (new_ticket id))) in
    record {
      at = λ {a = after} f.
          issue_next new_ticket (sold + i) id count tickets after (checked_u32_lem _ e)
            (shifted _ after (rest.at f));
    })
  where
    shifted :
        (before after : ℕ → Option Ticket)
        → IsIssued new_ticket (sold + (i + 1)) count before after
        → IsIssued new_ticket (sold + i + 1) count before after
    shifted before after h id = let at_id = h id in ground arith

-- What the writes of a purchase leave.
pub record IsRecorded (env : Env) (raffle : Raffle) (buyer : Address) (quantity : ℕ) (s : Contract)
    (m : Raffle × Contract) : Type 0 where
  pub sold : m.0 ≡ record raffle { tickets_sold = raffle.tickets_sold + quantity }
  pub fits : raffle.tickets_sold + quantity < 2 ^ 32
  pub count : m.1.ticket_count buyer ≡ s.ticket_count buyer + quantity
  pub others : (a : Address) → (a == buyer) ≡ false → m.1.ticket_count a ≡ s.ticket_count a
  pub issued :
      IsIssued (bought_ticket env raffle buyer) raffle.tickets_sold quantity s.tickets m.1.tickets

pub record_purchase-IsRecorded :
    (env : Env) (raffle : Raffle) (buyer : Address) (quantity : ℕ) (s : Contract)
    → Returns (IsRecorded env raffle buyer quantity s) (record_purchase env raffle buyer quantity s)
unfolding record_purchase
record_purchase-IsRecorded env raffle buyer quantity s =
    Returns-then _
      (issue_tickets-IsIssued (bought_ticket env raffle buyer) raffle.tickets_sold 0 quantity
        s.tickets)
      (λ tickets h. Returns-bind _ _ (λ n e. Returns-bind _ _ (λ m f. Returns-ok _ (record {
        sold =
            ap (λ k. record raffle { tickets_sold = k })
              (checked_u32_lem (raffle.tickets_sold + quantity) f);
        fits = checked_u32_fits (raffle.tickets_sold + quantity) f;
        count = counted n (checked_u32_lem (s.ticket_count buyer + quantity) e);
        others = λ a ne. ground arith;
        issued = λ id. let at_id = h id in ground arith;
      }))))
  where
    counted :
        (n : ℕ)
        → n ≡ s.ticket_count buyer + quantity
        → update s.ticket_count buyer n buyer ≡ s.ticket_count buyer + quantity
    counted n e = ground arith

-- The raffle once `n` of its tickets are sold: at the greatest number, its drawing has begun.
abbrev pub with_sold : ℕ → Raffle → Raffle
with_sold n raffle = record raffle {
  tickets_sold = n;
  status = if leb raffle.max_tickets n then drawing else raffle.status;
}

pub begin_drawing-keeps :
    (env : Env) (raffle : Raffle) (s : Contract)
    → Returns
        (λ m. SameSales s m.1 × (m.0 ≡ with_sold raffle.tickets_sold raffle))
        (begin_drawing env raffle s)
unfolding begin_drawing ◌>>=◌
begin_drawing-keeps env raffle s = Returns-Ensures _ (ground arith)

pub bump_raffle_ttl-SameSales :
    (n : ℕ) (s : Contract)
    → SameSales s (bump_raffle_ttl n s) × ((bump_raffle_ttl n s).raffle ≡ s.raffle)
unfolding bump_raffle_ttl
bump_raffle_ttl-SameSales n s = ground arith
