-- ===== src/Instance/Calls/Invariant.antt =====
-- What holds in every state that calls can reach.
use tikka_contracts.Prelude.{◌≢◌, Bool, arith}
use tikka_contracts.Prelude.Outcome.{
  ok, ◌>>=◌, Returns, Returns-then, Returns-ok, Ensures, Ensures-ok,
}
use tikka_contracts.Shared.Types.{Address}
use tikka_contracts.Shared.Status.{status_eq}
use tikka_contracts.Instance.State.{Contract, Env, Call}
use tikka_contracts.Instance.Draw.{trigger_randomness_fallback}
use tikka_contracts.Instance.Calls.{
  Request, on_init, on_deposit_prize, on_finalize_raffle, on_refund_prize, on_execute_admin_cancel,
  on_sweep_dust, on_wipe_storage, on_buy_tickets, on_submit_commit, on_provide_randomness,
  on_trigger_randomness_fallback, on_provide_quorum_randomness, on_claim_prize, on_sweep_unclaimed,
  on_refund_ticket, on_batch_refund_tickets, on_update_oracle_address, on_emergency_withdraw,
  on_set_protocol_fee_bp, on_set_swap_deadline, on_cancel_raffle, on_update_metadata_hash,
  on_set_paused, on_set_ticket_sales_paused, on_withdraw_fees, on_rescue_tokens, state_of, perform,
  empty_contract, Reachable, deployed, called, elsewhere,
}
use tikka_contracts.Instance.Phase.{IsPhased}
use tikka_contracts.Instance.Phase.Draws.{
  finalize_raffle-Phased, provide_randomness-Phased, trigger_randomness_fallback-Phased,
  provide_quorum_randomness-Phased,
}
use tikka_contracts.Instance.Phase.Sales.{buy_tickets-Phased, submit_commit-Phased}
use tikka_contracts.Instance.Phase.Payouts.{
  claim_prize-Phased, sweep_unclaimed-Phased, refund_prize-Phased, refund_ticket-Phased,
  batch_refund_tickets-Phased,
}
use tikka_contracts.Instance.Phase.Settings.{
  update_oracle_address-Phased, set_protocol_fee_bp-Phased, set_swap_deadline-Phased,
  cancel_raffle-Phased, execute_admin_cancel-Phased, update_metadata_hash-Phased, set_paused-Phased,
  set_ticket_sales_paused-Phased, withdraw_fees-Phased, rescue_tokens-Phased, sweep_dust-Phased,
  wipe_storage-Phased, emergency_withdraw-Phased, init-Phased, deposit_prize-Phased,
}

state_of-Phased :
    {A : Type 0} (m : Call (A × Contract))
    → Returns (λ r. IsPhased r.1) m
    → Returns IsPhased (state_of m)
unfolding state_of
state_of-Phased m h = Returns-then _ h (λ r p. Returns-ok r.1 p)

perform-Phased :
    (env : Env) (request : Request) (s : Contract)
    → IsPhased s
    → Returns IsPhased (perform env request s)
unfolding perform
perform-Phased env (on_init f a c g) s h = init-Phased env f a c g s
perform-Phased env on_deposit_prize s h = deposit_prize-Phased env s
perform-Phased env on_finalize_raffle s h = finalize_raffle-Phased env s
perform-Phased env on_refund_prize s h = refund_prize-Phased env s h
perform-Phased env on_execute_admin_cancel s h = execute_admin_cancel-Phased env s
perform-Phased env on_sweep_dust s h = sweep_dust-Phased env s h
perform-Phased env on_wipe_storage s h = wipe_storage-Phased env s
perform-Phased env (on_buy_tickets a n) s h = state_of-Phased _ (buy_tickets-Phased env a n s h)
perform-Phased env (on_submit_commit i b) s h = submit_commit-Phased env i b s h
perform-Phased env (on_provide_randomness n k p r) s h = provide_randomness-Phased env n k p r s
perform-Phased env (on_trigger_randomness_fallback a b) s h =
    trigger_randomness_fallback-Phased env a b s
perform-Phased env (on_provide_quorum_randomness a n r) s h =
    provide_quorum_randomness-Phased env a n r s
perform-Phased env (on_claim_prize a i) s h = state_of-Phased _ (claim_prize-Phased env a i s h)
perform-Phased env (on_sweep_unclaimed i l) s h =
    state_of-Phased _ (sweep_unclaimed-Phased env i l s h)
perform-Phased env (on_refund_ticket i) s h = state_of-Phased _ (refund_ticket-Phased env i s h)
perform-Phased env (on_batch_refund_tickets a is) s h =
    state_of-Phased _ (batch_refund_tickets-Phased env a is s h)
perform-Phased env (on_update_oracle_address a) s h = update_oracle_address-Phased env a s h
perform-Phased env (on_emergency_withdraw a) s h = emergency_withdraw-Phased env a s
perform-Phased env (on_set_protocol_fee_bp n) s h = set_protocol_fee_bp-Phased env n s h
perform-Phased env (on_set_swap_deadline n) s h = set_swap_deadline-Phased env n s h
perform-Phased env (on_cancel_raffle r) s h = cancel_raffle-Phased env r s h
perform-Phased env (on_update_metadata_hash b) s h = update_metadata_hash-Phased env b s h
perform-Phased env (on_set_paused b) s h = set_paused-Phased env b s h
perform-Phased env (on_set_ticket_sales_paused a b) s h = set_ticket_sales_paused-Phased env a b s h
perform-Phased env (on_withdraw_fees a n) s h = withdraw_fees-Phased env a n s h
perform-Phased env (on_rescue_tokens a b n) s h = rescue_tokens-Phased env a b n s h

-- In every state that calls can reach, a raffle in `Drawing` has the drawing lock set.
pub Reachable-IsPhased : {s : Contract} → Reachable s → IsPhased s
unfolding empty_contract
Reachable-IsPhased (deployed balances) = λ e. cc
Reachable-IsPhased (called {s = s} env request r e) =
    (perform-Phased env request s (Reachable-IsPhased r)).at e
Reachable-IsPhased (elsewhere balances r) = Reachable-IsPhased r

fallback-blocked :
    (env : Env) (caller : Address) (do_refund : Bool) (s : Contract)
    → IsPhased s
    → Ensures (λ _. ⊥) (trigger_randomness_fallback env caller do_refund s)
unfolding trigger_randomness_fallback status_eq ◌>>=◌
fallback-blocked env caller do_refund s h = ground arith

-- In no state that calls can reach does `trigger_randomness_fallback` succeed: a draw whose oracle is
-- silent is neither settled nor refunded by it.
pub fallback_never_succeeds :
    {s : Contract} (env : Env) (caller : Address) (do_refund : Bool)
    → Reachable s
    → (t : Contract) → trigger_randomness_fallback env caller do_refund s ≢ ok t
fallback_never_succeeds {s} env caller do_refund r t e =
    Ensures-ok (λ _. ⊥) _ (fallback-blocked env caller do_refund s (Reachable-IsPhased r)) e
