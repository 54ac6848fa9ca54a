-- ===== src/Instance/Claim/Once.antt =====
-- Repeated claims and refunds (contracts/raffle-instance/src/claim.rs).
use tikka_contracts.Prelude.{
  sym, ◌∙◌, ℕ, Bool, true, false, not, Option, none, some, ◌≡◌, ◌≢◌, refl, arith, get_elem?,
  get_elem?-set_self, get_elem?-lt, ◌==◌,
}
use tikka_contracts.Prelude.Int.{ℤ}
use tikka_contracts.Prelude.Outcome.{
  ok, ◌>>=◌, ◌>>◌, ok_or, reject_if, Returns, Returns-Ensures, Returns-bind, Returns-ok,
  Returns-then, returns_rules, ok_or-eq-ok, reject_if-eq-ok,
}
use tikka_contracts.Shared.Types.{Address}
use tikka_contracts.Instance.State.{
  Raffle, Winner, Contract, Env, Call, invalid_index, not_winner, prize_already_claimed,
  not_initialized,
}
use tikka_contracts.Instance.Helpers.{acquire_guard, transition_status}
use tikka_contracts.Instance.Claim.{
  claim_prize, check_claim, close_if_claimed, mark_claimed, pay_winner, collect_claim_fee,
  refund_ticket,
}

abbrev pub is_claimed : Option Winner → Bool
is_claimed none = false
is_claimed (some w) = w.claimed

-- The stored raffle says that the prize of a tier has been claimed.
abbrev pub claimed_at : ℕ → Option Raffle → Bool
claimed_at i none = false
claimed_at i (some raffle) = is_claimed (get_elem? raffle.winners i)

close_if_claimed-keeps :
    (i : ℕ) (raffle : Raffle) (s : Contract)
    → is_claimed (get_elem? raffle.winners i) ≡ true
    → Returns (λ t. claimed_at i t.raffle ≡ true) (close_if_claimed raffle s)
unfolding close_if_claimed transition_status ◌>>=◌
close_if_claimed-keeps i raffle s h = Returns-Ensures _ (ground arith)

pay_winner-keeps :
    (env : Env) (raffle : Raffle) (winner : Address) (amount : ℤ) (s : Contract)
    → Returns (λ t. t.raffle ≡ s.raffle) (pay_winner env raffle winner amount s)
unfolding pay_winner ◌>>=◌
pay_winner-keeps env raffle winner amount s = Returns-Ensures _ (ground arith)

collect_claim_fee-keeps :
    (env : Env) (raffle : Raffle) (fee : ℤ) (s : Contract)
    → Returns (λ t. t.raffle ≡ s.raffle) (collect_claim_fee env raffle fee s)
unfolding collect_claim_fee ◌>>=◌
collect_claim_fee-keeps env raffle fee s = Returns-Ensures _ (ground arith)

-- What the checks of a claim leave behind: the entry, not yet claimed.
IsOpen : Raffle → Address → ℕ → Winner → Type 0
IsOpen raffle winner i entry =
    (get_elem? raffle.winners i ≡ some entry) × (entry.claimed ≡ false) × (entry.address ≡ winner)

check_claim-IsOpen :
    (env : Env) (raffle : Raffle) (winner : Address) (i : ℕ) (s : Contract)
    → Returns (λ c. IsOpen raffle winner i c.0) (check_claim env raffle winner i s)
unfolding check_claim IsOpen
check_claim-IsOpen env raffle winner i s = search (open-then, returns_rules) depth 60
  where
    same : (a b : ℕ) → not (a == b) ≡ false → a ≡ b
    same a b h = ground arith

    open-then :
        {A : Type 0} {P : A → Type 0} (f : Winner → Call A)
        → ((w : Winner)
            → (get_elem? raffle.winners i ≡ some w) × (w.claimed ≡ false) × (w.address ≡ winner)
            → Returns P (f w))
        → Returns P (
            ok_or (get_elem? raffle.winners i) invalid_index >>= λ w.
            reject_if (not (w.address == winner)) not_winner
            >> (reject_if w.claimed prize_already_claimed >> f w))
    open-then f k = Returns-bind _ _ (λ w e. Returns-bind _ _ (λ _ e1. Returns-bind _ _ (λ _ e2.
        k w (
          ok_or-eq-ok (get_elem? raffle.winners i) invalid_index e,
          reject_if-eq-ok w.claimed prize_already_claimed e2,
          same w.address winner (reject_if-eq-ok (not (w.address == winner)) not_winner e1),
        ))))

mark_claimed-claimed :
    (raffle : Raffle) (i : ℕ) (entry : Winner)
    → get_elem? raffle.winners i ≡ some entry
    → is_claimed (get_elem? (mark_claimed raffle i entry).winners i) ≡ true
mark_claimed-claimed raffle i entry h =
    rw
      (get_elem?-set_self raffle.winners i (record entry { claimed = true })
        (get_elem?-lt raffle.winners i h))
      refl

acquire_guard-keeps : (s : Contract) → Returns (λ t. t.raffle ≡ s.raffle) (acquire_guard s)
unfolding acquire_guard ◌>>=◌
acquire_guard-keeps s = Returns-Ensures _ (ground arith)

-- The state before and after a claim that succeeds.
pub record Claims (winner : Address) (i : ℕ) (s t : Contract) : Type 0 where
  pub entry : Winner
  pub raffle : Raffle
  pub stored : s.raffle ≡ some raffle
  pub listed : get_elem? raffle.winners i ≡ some entry
  pub unclaimed : entry.claimed ≡ false
  pub owned : entry.address ≡ winner
  pub after : claimed_at i t.raffle ≡ true

claim_prize-Claims :
    (env : Env) (winner : Address) (i : ℕ) (s : Contract)
    → Returns (λ r. Claims winner i s r.1) (claim_prize env winner i s)
unfolding claim_prize IsOpen
claim_prize-Claims env winner i s = Returns-bind _ _ (λ _ _.
    Returns-then _ (acquire_guard-keeps s) (λ s1 h1. Returns-bind _ _ (λ raffle e.
      Returns-then _ (check_claim-IsOpen env raffle winner i s1) (λ c h. Returns-bind _ _ (λ _ _.
        Returns-bind _ _ (λ _ _.
          Returns-then _
            (close_if_claimed-keeps i (mark_claimed raffle i c.0) s1
              (mark_claimed-claimed raffle i c.0 h.0))
            (λ s2 h2. Returns-then _ (pay_winner-keeps env raffle winner _ s2) (λ s3 h3.
              Returns-then _ (collect_claim_fee-keeps env raffle c.2 s3) (λ s4 h4.
                Returns-ok _ (record {
                  entry = c.0;
                  raffle = raffle;
                  stored = sym h1 ∙ ok_or-eq-ok s1.raffle not_initialized e;
                  listed = h.0;
                  unclaimed = h.1;
                  owned = h.2;
                  after = rw (h4, h3) h2;
                }))))))))))

-- After a claim of a tier that succeeds, no claim of that tier succeeds on a state that still holds the
-- same raffle, whoever asks and whatever else has changed.
pub no_second_claim :
    (env later : Env) (winner other : Address) (i : ℕ) (s u : Contract) (paid again : ℤ × Contract)
    → claim_prize env winner i s ≡ ok paid
    → u.raffle ≡ paid.1.raffle
    → claim_prize later other i u ≢ ok again
no_second_claim env later winner other i s u paid again first same second =
    let c = (claim_prize-Claims env winner i s).at first in
    let d = (claim_prize-Claims later other i u).at second in
    clash c.after same d.stored d.listed d.unclaimed
  where
    clash :
        {r : Option Raffle} {raffle : Raffle} {entry : Winner}
        → claimed_at i r ≡ true
        → u.raffle ≡ r
        → u.raffle ≡ some raffle
        → get_elem? raffle.winners i ≡ some entry
        → entry.claimed ≡ false
        → ⊥
    clash h a b l n = ground arith

refund_ticket-marks :
    (env : Env) (id : ℕ) (s : Contract)
    → Returns
        (λ paid. (s.ticket_refunded id ≡ false) × (paid.1.ticket_refunded id ≡ true))
        (refund_ticket env id s)
unfolding refund_ticket acquire_guard ◌>>=◌
refund_ticket-marks env id s = Returns-Ensures _ (ground arith)

-- After a refund of a ticket that succeeds, no refund of it succeeds on a state that still has its
-- marker, whoever asks and whatever else has changed.
pub no_second_refund :
    (env later : Env) (id : ℕ) (s u : Contract) (paid again : ℤ × Contract)
    → refund_ticket env id s ≡ ok paid
    → u.ticket_refunded id ≡ paid.1.ticket_refunded id
    → refund_ticket later id u ≢ ok again
no_second_refund env later id s u paid again first same second =
    let c = (refund_ticket-marks env id s).at first in
    let d = (refund_ticket-marks later id u).at second in ground arith
