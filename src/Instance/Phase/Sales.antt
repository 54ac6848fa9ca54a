-- ===== src/Instance/Phase/Sales.antt =====
-- The drawing lock under the calls of contracts/raffle-instance/src/tickets.rs.
use tikka_contracts.Prelude.{ℕ, true, false, ◌≡◌, arith}
use tikka_contracts.Prelude.Int.{ℤ}
use tikka_contracts.Prelude.Outcome.{
  ok, ◌>>=◌, Returns, Returns-Ensures, Returns-bind, Returns-ok, Returns-then, returns_rules,
}
use tikka_contracts.Shared.Types.{Address, Bytes}
use tikka_contracts.Shared.Status.{drawing, status_eq}
use tikka_contracts.Instance.State.{Raffle, Contract, Env, Error, Call}
use tikka_contracts.Instance.Helpers.{
  acquire_guard, transition_status, transition_to_drawing, request_randomness, try_transfer,
  write_raffle, require_not_paused, require_global_not_paused, bump_raffle_ttl,
}
use tikka_contracts.Instance.Tickets.{
  validate_purchase_preconditions, collect_fee, record_purchase, begin_drawing, buy_tickets,
  submit_commit,
}
use tikka_contracts.Instance.Phase.{IsPhased}

validate-Phased :
    (env : Env) (raffle : Raffle) (quantity : ℕ) (s : Contract)
    → IsPhased s
    → Returns
        (λ t. IsPhased t × (status_eq raffle.status drawing ≡ false))
        (validate_purchase_preconditions env raffle quantity s)
unfolding validate_purchase_preconditions acquire_guard require_not_paused require_global_not_paused
    status_eq ◌>>=◌
validate-Phased env raffle quantity s h = Returns-Ensures _ (ground arith)

collect_fee-Phased :
    (env : Env) (raffle : Raffle) (fee : ℤ) (s : Contract)
    → IsPhased s
    → Returns IsPhased (collect_fee env raffle fee s)
unfolding collect_fee ◌>>=◌
collect_fee-Phased env raffle fee s h = Returns-Ensures _ (ground arith)

-- The raffle in hand is not in `Drawing`, and the state is phased.
abbrev IsOnSale : Raffle × Contract → Type 0
IsOnSale m = (status_eq m.0.status drawing ≡ false) × IsPhased m.1

record_purchase-OnSale :
    (env : Env) (raffle : Raffle) (buyer : Address) (quantity : ℕ) (s : Contract)
    → status_eq raffle.status drawing ≡ false
    → IsPhased s
    → Returns IsOnSale (record_purchase env raffle buyer quantity s)
unfolding record_purchase
record_purchase-OnSale env raffle buyer quantity s n h = search (returns_rules) depth 30

begin_drawing-Phased :
    (env : Env) (raffle : Raffle) (s : Contract)
    → status_eq raffle.status drawing ≡ false
    → Returns
        (λ m. status_eq m.0.status drawing ≡ true → m.1.drawing_lock ≡ true)
        (begin_drawing env raffle s)
unfolding begin_drawing transition_to_drawing transition_status request_randomness ◌>>=◌
begin_drawing-Phased env raffle s n = Returns-Ensures _ (ground arith)

bump_raffle_ttl-Phased : (n : ℕ) (s : Contract) → IsPhased s → IsPhased (bump_raffle_ttl n s)
unfolding bump_raffle_ttl
bump_raffle_ttl-Phased n s h = ground arith

try_transfer-Phased :
    (env : Env) (token from to : Address) (amount : ℤ) (s : Contract)
    → IsPhased s
    → Returns IsPhased (try_transfer env token from to amount s)
unfolding try_transfer ◌>>=◌
try_transfer-Phased env token from to amount s h = Returns-Ensures _ (ground arith)

pub submit_commit-Phased :
    (env : Env) (id : ℕ) (hash : Bytes) (s : Contract)
    → IsPhased s
    → Returns IsPhased (submit_commit env id hash s)
unfolding submit_commit
submit_commit-Phased env id hash s h = search returns_rules depth 60

pub buy_tickets-Phased :
    (env : Env) (buyer : Address) (quantity : ℕ) (s : Contract)
    → IsPhased s
    → Returns (λ r. IsPhased r.1) (buy_tickets env buyer quantity s)
unfolding buy_tickets
buy_tickets-Phased env buyer quantity s h = Returns-bind _ _ (λ _ _. Returns-bind _ _ (λ raffle _.
    validate-then raffle _ (λ t h1. Returns-bind _ _ (λ _ _. Returns-bind _ _ (λ q _.
      Returns-bind _ _ (λ _ _. pay-then raffle.payment_token _ _ _ t _ h1.0 (λ s2 h2.
        fee-then raffle q.fee s2 _ h2 (λ s3 h3.
          record-then raffle s3 _ h1.1 h3
            (λ m h4. begin-then m _ h4 (λ d h5. Returns-bind _ _ (λ _ _. finish _ _ d h5)))))))))))
  where
    validate-then :
        {A : Type 0} {P : A → Type 0} (raffle : Raffle) (f : Contract → Call A)
        → ((t : Contract)
            → IsPhased t × (status_eq raffle.status drawing ≡ false)
            → Returns P (f t))
        → Returns P (validate_purchase_preconditions env raffle quantity s >>= f)
    validate-then raffle f k = Returns-then f (validate-Phased env raffle quantity s h) k

    pay-then :
        {A : Type 0} {P : A → Type 0} (token from to : Address) (amount : ℤ) (t : Contract)
        (f : Contract → Call A)
        → IsPhased t
        → ((u : Contract) → IsPhased u → Returns P (f u))
        → Returns P (try_transfer env token from to amount t >>= f)
    pay-then token from to amount t f n k =
        Returns-then f (try_transfer-Phased env token from to amount t n) k

    fee-then :
        {A : Type 0} {P : A → Type 0} (raffle : Raffle) (fee : ℤ) (t : Contract)
        (f : Contract → Call A)
        → IsPhased t
        → ((u : Contract) → IsPhased u → Returns P (f u))
        → Returns P (collect_fee env raffle fee t >>= f)
    fee-then raffle fee t f n k = Returns-then f (collect_fee-Phased env raffle fee t n) k

    record-then :
        {A : Type 0} {P : A → Type 0} (raffle : Raffle) (t : Contract)
        (f : Raffle × Contract → Call A)
        → status_eq raffle.status drawing ≡ false
        → IsPhased t
        → ((m : Raffle × Contract) → IsOnSale m → Returns P (f m))
        → Returns P (record_purchase env raffle buyer quantity t >>= f)
    record-then raffle t f n p k =
        Returns-then f (record_purchase-OnSale env raffle buyer quantity t n p) k

    begin-then :
        {A : Type 0} {P : A → Type 0} (m : Raffle × Contract) (f : Raffle × Contract → Call A)
        → IsOnSale m
        → ((d : Raffle × Contract)
            → (status_eq d.0.status drawing ≡ true → d.1.drawing_lock ≡ true)
            → Returns P (f d))
        → Returns P (begin_drawing env m.0 m.1 >>= f)
    begin-then m f n k = Returns-then f (begin_drawing-Phased env m.0 m.1 n.0) k

    finish :
        (k n : ℕ) (d : Raffle × Contract)
        → (status_eq d.0.status drawing ≡ true → d.1.drawing_lock ≡ true)
        → Returns {E = Error}
            (λ (r : ℕ × Contract). IsPhased r.1)
            (ok (k, bump_raffle_ttl n (write_raffle d.0 d.1)))
    finish k n d h = Returns-ok _ (bump_raffle_ttl-Phased n _ h)
