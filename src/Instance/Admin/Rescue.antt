-- ===== src/Instance/Admin/Rescue.antt =====
-- What `rescue_tokens` of contracts/raffle-instance/src/admin.rs leaves in the contract.
use native.Mathlib.Nat.{mul-add}
use tikka_contracts.Prelude.{
  ℕ, zero, suc, ◌+◌, ◌*◌, ◌≡◌, refl, ap, ◌∙◌, Bool, true, false, ◌&&◌, ◌==◌, not, if◌then◌else◌,
  some, arith,
}
use tikka_contracts.Prelude.Int.{
  ℤ, pos, ◌≤ℤ◌, ◌+ℤ◌, ◌-ℤ◌, ltb_ℤ, checked_add, checked_sub, checked_add_pos,
}
use tikka_contracts.Prelude.Outcome.{
  ok, ◌>>=◌, ◌>>◌, ok_or, or_trap, reject_if, Returns, Returns-Ensures, Returns-bind, Returns-then,
  Returns-ok, ok_or-eq-ok,
}
use tikka_contracts.Shared.Types.{Address}
use tikka_contracts.Shared.Status.{finalized, claimed, status_eq}
use tikka_contracts.Instance.State.{
  Raffle, Contract, Env, Call, arithmetic_overflow, invalid_state_transition,
}
use tikka_contracts.Instance.Admin.Tokens.{
  rescue_tokens, check_surplus, token_entitlement, payment_entitlement, outstanding_prize,
  outstanding_ticket_refunds,
}

-- The number of tickets from 1 to n that have not been refunded.
abbrev pub unrefunded : (ℕ → Bool) → ℕ → ℕ
unrefunded refunded zero = 0
unrefunded refunded (suc n) =
    if refunded (suc n) then unrefunded refunded n else unrefunded refunded n + 1

-- What the contract owes in a token before a raffle is settled: the price of every ticket that has not been
-- refunded and the fees, in the payment token, and a prize that has been paid in, in the prize token.
abbrev pub dues : Raffle → Address → Contract → ℕ → ℕ → ℕ → ℕ
dues raffle token s price fees prize =
    (if token == raffle.payment_token
      then price * unrefunded s.ticket_refunded raffle.tickets_sold + fees
      else 0)
    + (if token == raffle.prize_token && raffle.prize_deposited then prize else 0)

add_lem :
    (x y : ℕ) {t : ℤ}
    → ok_or (checked_add (pos x) (pos y)) arithmetic_overflow ≡ ok t
    → t ≡ pos (x + y)
add_lem x y {t} e = found (ok_or-eq-ok _ _ e)
  where
    found : checked_add (pos x) (pos y) ≡ some t → t ≡ pos (x + y)
    found f = ground (arith, checked_add_pos x y, f)

outstanding_ticket_refunds_lem :
    (raffle : Raffle) (refunded : ℕ → Bool) (price n : ℕ)
    → raffle.ticket_price ≡ pos price
    → Returns
        (λ v. v ≡ pos (price * unrefunded refunded n))
        (outstanding_ticket_refunds raffle refunded n)
unfolding outstanding_ticket_refunds
outstanding_ticket_refunds_lem raffle refunded price zero p = Returns-ok _ (ap pos (omega arith))
outstanding_ticket_refunds_lem raffle refunded price (suc n) p =
    Returns-then _ (outstanding_ticket_refunds_lem raffle refunded price n p)
      (λ v h. step (refunded (suc n)) v h)
  where
    step :
        (b : Bool) (v : ℤ)
        → v ≡ pos (price * unrefunded refunded n)
        → Returns
            (λ w.
              w ≡ pos (price * (if b then unrefunded refunded n else unrefunded refunded n + 1)))
            (if b then ok v else ok_or (checked_add v raffle.ticket_price) arithmetic_overflow)
    step true v h = Returns-ok v h
    step false v h =
        rw (h, p)
          (record {
            at = λ e.
                add_lem (price * unrefunded refunded n) price e
                ∙ ap pos (omega (arith, mul-add price (unrefunded refunded n) 1));
          })

-- A raffle that is not settled: neither finalized nor claimed.
abbrev pub is_open : Raffle → Bool
is_open raffle = not (status_eq raffle.status finalized) && not (status_eq raffle.status claimed)

-- A guarded amount: all of it, or nothing.
when_open :
    (b c d : Bool) (x : ℕ) (m : Call ℤ)
    → (c && d) ≡ true
    → Returns (λ v. v ≡ pos x) m
    → Returns (λ v. v ≡ pos (if b then x else 0)) (if b && c && d then m else ok (pos 0))
when_open true true true x m e h = h
when_open true true false x m e h = cc
when_open true false d x m e h = cc
when_open false c d x m e h = Returns-ok _ refl

when_deposited :
    (b c : Bool) (x : ℕ) (y : Call ℤ)
    → c ≡ true
    → Returns
        (λ v. v ≡ pos (if b then x else 0))
        (if not b then ok (pos 0) else (if c then ok (pos x) else y))
when_deposited true true x y e = Returns-ok _ refl
when_deposited true false x y e = cc
when_deposited false c x y e = Returns-ok _ refl

and_left : (c d : Bool) → (c && d) ≡ true → c ≡ true
and_left true d e = refl
and_left false d e = e

fits_balance :
    (balance amount : ℤ) (owed : ℕ)
    → Returns
        (λ _. pos owed +ℤ amount ≤ℤ balance)
        (do
          reject_if (ltb_ℤ balance (pos owed)) invalid_state_transition
          surplus ← or_trap (checked_sub balance (pos owed))
          reject_if (ltb_ℤ surplus amount) invalid_state_transition)
unfolding ◌+ℤ◌ ◌-ℤ◌ checked_sub ◌>>=◌
fits_balance balance amount owed = Returns-Ensures _ (ground arith)

module _ (raffle : Raffle) (token : Address) (s : Contract) (price fees prize : ℕ)
    (p : raffle.ticket_price ≡ pos price) (f : s.accumulated_fees ≡ pos fees)
    (z : raffle.prize_amount ≡ pos prize) (o : is_open raffle ≡ true) where
  payment_lem :
      Returns
        (λ v.
          v
          ≡ pos (
              if token == raffle.payment_token
              then price * unrefunded s.ticket_refunded raffle.tickets_sold + fees
              else 0))
        (payment_entitlement raffle token s)
  unfolding payment_entitlement
  payment_lem =
      when_open (token == raffle.payment_token) (not (status_eq raffle.status finalized))
        (not (status_eq raffle.status claimed)) _ _ o
        (Returns-then _
          (outstanding_ticket_refunds_lem raffle s.ticket_refunded price raffle.tickets_sold p)
          (λ refunds h. rw (h, f) (record { at = add_lem _ fees })))

  prize_lem :
      Returns
        (λ v. v ≡ pos (if raffle.prize_deposited then prize else 0))
        (outstanding_prize raffle)
  unfolding outstanding_prize
  prize_lem = rw z (
      when_deposited raffle.prize_deposited (not (status_eq raffle.status finalized)) prize _
        (and_left (not (status_eq raffle.status finalized)) _ o))

  token_entitlement_lem :
      Returns
        (λ v. v ≡ pos (dues raffle token s price fees prize))
        (token_entitlement raffle token s)
  unfolding token_entitlement
  token_entitlement_lem =
      Returns-then _ payment_lem (λ owed h. rw h (with_prize (token == raffle.prize_token) _))
    where
      with_prize :
          (b : Bool) (x : ℕ)
          → Returns
              (λ v. v ≡ pos (x + (if b && raffle.prize_deposited then prize else 0)))
              (if b
                then (do
                  owed ← outstanding_prize raffle
                  ok_or (checked_add (pos x) owed) arithmetic_overflow)
                else ok (pos x))
      with_prize true x = Returns-then _ prize_lem (λ owed h. rw h (record { at = add_lem x _ }))
      with_prize false x = Returns-ok _ (ap pos (omega arith))

  surplus_lem :
      (env : Env) (amount : ℤ)
      → Returns
          (λ _.
            pos (dues raffle token s price fees prize) +ℤ amount
            ≤ℤ s.balances token env.current_contract_address)
          (check_surplus env raffle token amount s)
  unfolding check_surplus
  surplus_lem env amount = Returns-then _ token_entitlement_lem (λ owed h. rw h (
      fits_balance (s.balances token env.current_contract_address) amount
        (dues raffle token s price fees prize)))

  rescue_lem :
      (env : Env) (to : Address) (amount : ℤ)
      → s.raffle ≡ some raffle
      → Returns
          (λ _.
            pos (dues raffle token s price fees prize) +ℤ amount
            ≤ℤ s.balances token env.current_contract_address)
          (rescue_tokens env token to amount s)
  unfolding rescue_tokens
  rescue_lem env to amount r = Returns-bind _ _ (λ _ _. Returns-bind _ _ (λ _ _.
      Returns-bind _ _
        (λ _ _. rw r (Returns-then _ (surplus_lem env amount) (λ _ k. record { at = λ _. k })))))

-- While a raffle is neither finalized nor claimed, tokens are rescued only from what the contract holds
-- beyond its dues: in the payment token the price of every ticket that has not been refunded and the
-- accumulated fees, and in the prize token a prize that has been paid in. Dues and rescued amount together
-- fit the balance. Of a raffle that is finalized or claimed it says nothing: there the code leaves the
-- accumulated fees out.
pub rescue_keeps_dues :
    (env : Env) (raffle : Raffle) (token to : Address) (amount : ℤ) (price fees prize : ℕ)
    (s t : Contract)
    → s.raffle ≡ some raffle
    → raffle.ticket_price ≡ pos price
    → s.accumulated_fees ≡ pos fees
    → raffle.prize_amount ≡ pos prize
    → is_open raffle ≡ true
    → rescue_tokens env token to amount s ≡ ok t
    → pos (dues raffle token s price fees prize) +ℤ amount
      ≤ℤ s.balances token env.current_contract_address
rescue_keeps_dues env raffle token to amount price fees prize s t r p f z o e =
    (rescue_lem raffle token s price fees prize p f z o env to amount r).at e
