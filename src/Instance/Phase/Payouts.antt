-- ===== src/Instance/Phase/Payouts.antt =====
-- The drawing lock under the calls of contracts/raffle-instance/src/claim.rs.
use tikka_contracts.Prelude.{◌+◌, ℕ, zero, suc, false, not, List, [], ◌∷◌, ◌≡◌, arith}
use tikka_contracts.Prelude.Int.{ℤ}
use tikka_contracts.Prelude.Outcome.{
  ok, ◌>>=◌, ◌>>◌, reject_if, Returns, Returns-Ensures, Returns-bind, Returns-ok, Returns-then,
  returns_rules,
}
use tikka_contracts.Shared.Types.{Address}
use tikka_contracts.Shared.Status.{RaffleStatus, drawing, finalized, status_eq}
use tikka_contracts.Instance.State.{Raffle, Winner, Contract, Env, Call, invalid_status}
use tikka_contracts.Instance.Helpers.{acquire_guard, transition_status}
use tikka_contracts.Instance.Claim.{
  claim_prize, check_claim, close_if_claimed, mark_claimed, pay_winner, collect_claim_fee,
  sweep_one, sweep_range, sweep_unclaimed, refund_prize, refund_ticket, refund_one, refund_all,
  batch_refund_tickets,
}
use tikka_contracts.Instance.Phase.{IsPhased}

pub refund_prize-Phased :
    (env : Env) (s : Contract) → IsPhased s → Returns IsPhased (refund_prize env s)
unfolding refund_prize acquire_guard status_eq ◌>>=◌
refund_prize-Phased env s h = Returns-Ensures _ (ground arith)

pub refund_ticket-Phased :
    (env : Env) (id : ℕ) (s : Contract)
    → IsPhased s
    → Returns (λ paid. IsPhased paid.1) (refund_ticket env id s)
unfolding refund_ticket acquire_guard ◌>>=◌
refund_ticket-Phased env id s h = Returns-Ensures _ (ground arith)

refund_one-Phased :
    (env : Env) (raffle : Raffle) (owner : Address) (id : ℕ) (acc : ℤ × Contract)
    → IsPhased acc.1
    → Returns (λ paid. IsPhased paid.1) (refund_one env raffle owner id acc)
unfolding refund_one ◌>>=◌
refund_one-Phased env raffle owner id acc h = Returns-Ensures _ (ground arith)

refund_all-Phased :
    (env : Env) (raffle : Raffle) (owner : Address) (ids : List ℕ) (acc : ℤ × Contract)
    → IsPhased acc.1
    → Returns (λ paid. IsPhased paid.1) (refund_all env raffle owner ids acc)
unfolding refund_all
refund_all-Phased env raffle owner [] acc h = Returns-ok acc h
refund_all-Phased env raffle owner (id ∷ ids) acc h =
    Returns-then _ (refund_one-Phased env raffle owner id acc h)
      (refund_all-Phased env raffle owner ids)

acquire_guard-Phased : (s : Contract) → IsPhased s → Returns IsPhased (acquire_guard s)
unfolding acquire_guard ◌>>=◌
acquire_guard-Phased s h = Returns-Ensures _ (ground arith)

module _ (s : Contract) {A : Type 0} {P : A → Type 0} (f : Contract → Call A) where
  guard-then :
      IsPhased s
      → ((t : Contract) → IsPhased t → Returns P (f t))
      → Returns P (acquire_guard s >>= f)
  guard-then h k = Returns-then f (acquire_guard-Phased s h) k

pub batch_refund_tickets-Phased :
    (env : Env) (owner : Address) (ids : List ℕ) (s : Contract)
    → IsPhased s
    → Returns (λ paid. IsPhased paid.1) (batch_refund_tickets env owner ids s)
unfolding batch_refund_tickets
batch_refund_tickets-Phased env owner ids s h =
    search (guard-then, refund-then, returns_rules) depth 60
  where
    refund-then :
        {A : Type 0} {P : A → Type 0} (raffle : Raffle) (total : ℤ) (t : Contract)
        (f : ℤ × Contract → Call A)
        → IsPhased t
        → ((paid : ℤ × Contract) → IsPhased paid.1 → Returns P (f paid))
        → Returns P (refund_all env raffle owner ids (total, t) >>= f)
    refund-then raffle total t f p k =
        Returns-then f (refund_all-Phased env raffle owner ids (total, t) p) k

-- A raffle that is claimed, or stored, in a status other than `Drawing`.
close_if_claimed-Phased :
    (raffle : Raffle) (s : Contract)
    → status_eq raffle.status drawing ≡ false
    → Returns IsPhased (close_if_claimed raffle s)
unfolding close_if_claimed transition_status status_eq ◌>>=◌
close_if_claimed-Phased raffle s h = Returns-Ensures _ (ground arith)

check_claim-finalized :
    (env : Env) (raffle : Raffle) (winner : Address) (tier : ℕ) (s : Contract)
    → Returns (λ _. status_eq raffle.status drawing ≡ false) (check_claim env raffle winner tier s)
unfolding check_claim status_eq
check_claim-finalized env raffle winner tier s =
    Returns-bind _ _ (λ a e. search (returns_rules, other raffle.status e) depth 30)
  where
    other :
        (st : RaffleStatus) {a : Unit {0}}
        → reject_if (not (status_eq st finalized)) invalid_status ≡ ok a
        → status_eq st drawing ≡ false
    other st e = ground arith

pay_winner-Phased :
    (env : Env) (raffle : Raffle) (winner : Address) (amount : ℤ) (s : Contract)
    → IsPhased s
    → Returns IsPhased (pay_winner env raffle winner amount s)
unfolding pay_winner ◌>>=◌
pay_winner-Phased env raffle winner amount s h = Returns-Ensures _ (ground arith)

collect_claim_fee-Phased :
    (env : Env) (raffle : Raffle) (fee : ℤ) (s : Contract)
    → IsPhased s
    → Returns IsPhased (collect_claim_fee env raffle fee s)
unfolding collect_claim_fee ◌>>=◌
collect_claim_fee-Phased env raffle fee s h = Returns-Ensures _ (ground arith)

pub claim_prize-Phased :
    (env : Env) (winner : Address) (tier : ℕ) (s : Contract)
    → IsPhased s
    → Returns (λ paid. IsPhased paid.1) (claim_prize env winner tier s)
unfolding claim_prize
claim_prize-Phased env winner tier s h =
    search (guard-then, check-then, close-then, pay-then, fee-then, returns_rules) depth 60
  where
    check-then :
        {A : Type 0} {P : A → Type 0} (raffle : Raffle) (t : Contract) (f : Winner × ℤ × ℤ → Call A)
        → ((c : Winner × ℤ × ℤ) → status_eq raffle.status drawing ≡ false → Returns P (f c))
        → Returns P (check_claim env raffle winner tier t >>= f)
    check-then raffle t f k = Returns-then f (check_claim-finalized env raffle winner tier t) k

    close-then :
        {A : Type 0} {P : A → Type 0} (raffle : Raffle) (entry : Winner) (t : Contract)
        (f : Contract → Call A)
        → status_eq raffle.status drawing ≡ false
        → ((u : Contract) → IsPhased u → Returns P (f u))
        → Returns P (close_if_claimed (mark_claimed raffle tier entry) t >>= f)
    close-then raffle entry t f n k =
        Returns-then f (close_if_claimed-Phased (mark_claimed raffle tier entry) t n) k

    pay-then :
        {A : Type 0} {P : A → Type 0} (raffle : Raffle) (amount : ℤ) (t : Contract)
        (f : Contract → Call A)
        → IsPhased t
        → ((u : Contract) → IsPhased u → Returns P (f u))
        → Returns P (pay_winner env raffle winner amount t >>= f)
    pay-then raffle amount t f n k =
        Returns-then f (pay_winner-Phased env raffle winner amount t n) k

    fee-then :
        {A : Type 0} {P : A → Type 0} (raffle : Raffle) (fee : ℤ) (t : Contract)
        (f : Contract → Call A)
        → IsPhased t
        → ((u : Contract) → IsPhased u → Returns P (f u))
        → Returns P (collect_claim_fee env raffle fee t >>= f)
    fee-then raffle fee t f n k = Returns-then f (collect_claim_fee-Phased env raffle fee t n) k

-- What the sweep keeps: the raffle in hand is not in `Drawing`, and the state is phased.
abbrev IsSwept : Raffle × ℕ × Contract → Type 0
IsSwept acc = (status_eq acc.0.status drawing ≡ false) × IsPhased acc.2

sweep_one-Phased :
    (env : Env) (treasury : Address) (i : ℕ) (acc : Raffle × ℕ × Contract)
    → IsSwept acc
    → Returns IsSwept (sweep_one env treasury i acc)
unfolding sweep_one ◌>>=◌
sweep_one-Phased env treasury i acc h = Returns-Ensures _ (ground arith)

sweep_range-Phased :
    (env : Env) (treasury : Address) (i count : ℕ) (acc : Raffle × ℕ × Contract)
    → IsSwept acc
    → Returns IsSwept (sweep_range env treasury i count acc)
unfolding sweep_range
sweep_range-Phased env treasury i zero acc h = Returns-ok acc h
sweep_range-Phased env treasury i (suc count) acc h =
    Returns-then _ (sweep_one-Phased env treasury i acc h)
      (sweep_range-Phased env treasury (i + 1) count)

pub sweep_unclaimed-Phased :
    (env : Env) (start limit : ℕ) (s : Contract)
    → IsPhased s
    → Returns (λ paid. IsPhased paid.1) (sweep_unclaimed env start limit s)
unfolding sweep_unclaimed status_eq
sweep_unclaimed-Phased env start limit s h =
    search (guard-then, status-then, range-then, close-then, returns_rules) depth 60
  where
    settled :
        (st : RaffleStatus) {a : Unit {0}}
        → reject_if (not (status_eq st finalized)) invalid_status ≡ ok a
        → status_eq st drawing ≡ false
    settled st e = ground arith

    status-then :
        {A : Type 0} {P : A → Type 0} (raffle : Raffle) (k : Call A)
        → (status_eq raffle.status drawing ≡ false → Returns P k)
        → Returns P (reject_if (not (status_eq raffle.status finalized)) invalid_status >> k)
    status-then raffle k f = Returns-bind _ _ (λ a e. f (settled raffle.status e))

    range-then :
        {A : Type 0} {P : A → Type 0} (treasury : Address) (count : ℕ) (acc : Raffle × ℕ × Contract)
        (f : Raffle × ℕ × Contract → Call A)
        → IsSwept acc
        → ((next : Raffle × ℕ × Contract) → IsSwept next → Returns P (f next))
        → Returns P (sweep_range env treasury start count acc >>= f)
    range-then treasury count acc f n k =
        Returns-then f (sweep_range-Phased env treasury start count acc n) k

    close-then :
        {A : Type 0} {P : A → Type 0} (acc : Raffle × ℕ × Contract) (f : Contract → Call A)
        → IsSwept acc
        → ((u : Contract) → IsPhased u → Returns P (f u))
        → Returns P (close_if_claimed acc.0 acc.2 >>= f)
    close-then acc f n k = Returns-then f (close_if_claimed-Phased acc.0 acc.2 n.0) k
