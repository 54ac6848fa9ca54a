-- ===== src/Instance/Calls.antt =====
-- The calls of contracts/raffle-instance/src/lib.rs that change state, and the states that sequences of
-- calls reach. A call that fails leaves the state as it was, since the host rolls it back.
-- `buy_tickets_for` is not among them: its body builds a `Ticket` that lacks fields. The exported
-- `provide_quorum_randomness` repeats the body of the one in draw.rs, which stands here for both.
pub mod Invariant
use tikka_contracts.Prelude.{ℕ, Bool, false, true, none, List, [], ◌≡◌}
use tikka_contracts.Prelude.Int.{ℤ, pos}
use tikka_contracts.Prelude.Outcome.{Outcome, ok, ◌>>=◌}
use tikka_contracts.Shared.Types.{Address, Bytes, RaffleConfig, CancelReason}
use tikka_contracts.Instance.State.{Contract, Env, Call, Balances}
use tikka_contracts.Instance.Tickets.{buy_tickets, submit_commit}
use tikka_contracts.Instance.Draw.{
  finalize_raffle, provide_randomness, trigger_randomness_fallback, provide_quorum_randomness,
}
use tikka_contracts.Instance.Claim.{
  claim_prize, sweep_unclaimed, refund_prize, refund_ticket, batch_refund_tickets,
}
use tikka_contracts.Instance.Admin.{
  update_oracle_address, set_protocol_fee_bp, set_swap_deadline, cancel_raffle,
  execute_admin_cancel, update_metadata_hash, set_paused, set_ticket_sales_paused,
}
use tikka_contracts.Instance.Admin.Tokens.{
  withdraw_fees, rescue_tokens, sweep_dust, wipe_storage, emergency_withdraw,
}
use tikka_contracts.Instance.Init.{init, deposit_prize}

pub data Request : Type 0 where
  on_init : Address → Address → Address → RaffleConfig → Request
  on_deposit_prize on_finalize_raffle on_refund_prize on_execute_admin_cancel : Request
  on_sweep_dust on_wipe_storage : Request
  on_buy_tickets : Address → ℕ → Request
  on_submit_commit : ℕ → Bytes → Request
  on_provide_randomness : ℕ → Bytes → Bytes → ℕ → Request
  on_trigger_randomness_fallback : Address → Bool → Request
  on_provide_quorum_randomness : Address → ℕ → ℕ → Request
  on_claim_prize : Address → ℕ → Request
  on_sweep_unclaimed : ℕ → ℕ → Request
  on_refund_ticket : ℕ → Request
  on_batch_refund_tickets : Address → List ℕ → Request
  on_update_oracle_address on_emergency_withdraw : Address → Request
  on_set_protocol_fee_bp on_set_swap_deadline : ℕ → Request
  on_cancel_raffle : CancelReason → Request
  on_update_metadata_hash : Bytes → Request
  on_set_paused : Bool → Request
  on_set_ticket_sales_paused : Address → Bool → Request
  on_withdraw_fees : Address → ℤ → Request
  on_rescue_tokens : Address → Address → ℤ → Request

-- The state after a call that also returns a value.
unfoldable pub state_of : {A : Type 0} → Call (A × Contract) → Call Contract
unfolding ◌>>=◌
state_of m = m >>= λ r. ok r.1

unfoldable pub perform : Env → Request → Contract → Call Contract
unfolding state_of init deposit_prize finalize_raffle refund_prize execute_admin_cancel sweep_dust
    wipe_storage buy_tickets submit_commit provide_randomness trigger_randomness_fallback
    provide_quorum_randomness claim_prize sweep_unclaimed refund_ticket batch_refund_tickets
    update_oracle_address emergency_withdraw set_protocol_fee_bp set_swap_deadline cancel_raffle
    update_metadata_hash set_paused set_ticket_sales_paused withdraw_fees rescue_tokens
perform env (on_init factory admin creator config) s = init env factory admin creator config s
perform env on_deposit_prize s = deposit_prize env s
perform env on_finalize_raffle s = finalize_raffle env s
perform env on_refund_prize s = refund_prize env s
perform env on_execute_admin_cancel s = execute_admin_cancel env s
perform env on_sweep_dust s = sweep_dust env s
perform env on_wipe_storage s = wipe_storage env s
perform env (on_buy_tickets buyer quantity) s = state_of (buy_tickets env buyer quantity s)
perform env (on_submit_commit ticket_id hash) s = submit_commit env ticket_id hash s
perform env (on_provide_randomness seed public_key proof request_id) s =
    provide_randomness env seed public_key proof request_id s
perform env (on_trigger_randomness_fallback caller do_refund) s =
    trigger_randomness_fallback env caller do_refund s
perform env (on_provide_quorum_randomness oracle seed request_id) s =
    provide_quorum_randomness env oracle seed request_id s
perform env (on_claim_prize winner tier_index) s = state_of (claim_prize env winner tier_index s)
perform env (on_sweep_unclaimed start_index limit) s =
    state_of (sweep_unclaimed env start_index limit s)
perform env (on_refund_ticket ticket_id) s = state_of (refund_ticket env ticket_id s)
perform env (on_batch_refund_tickets owner ticket_ids) s =
    state_of (batch_refund_tickets env owner ticket_ids s)
perform env (on_update_oracle_address new_oracle) s = update_oracle_address env new_oracle s
perform env (on_emergency_withdraw caller) s = emergency_withdraw env caller s
perform env (on_set_protocol_fee_bp new_fee_bp) s = set_protocol_fee_bp env new_fee_bp s
perform env (on_set_swap_deadline seconds) s = set_swap_deadline env seconds s
perform env (on_cancel_raffle reason) s = cancel_raffle env reason s
perform env (on_update_metadata_hash new_hash) s = update_metadata_hash env new_hash s
perform env (on_set_paused paused) s = set_paused env paused s
perform env (on_set_ticket_sales_paused caller paused) s =
    set_ticket_sales_paused env caller paused s
perform env (on_withdraw_fees recipient amount) s = withdraw_fees env recipient amount s
perform env (on_rescue_tokens token recipient amount) s = rescue_tokens env token recipient amount s

-- A contract that has just been deployed.
unfoldable pub empty_contract : Balances → Contract
empty_contract balances = record {
  raffle = none;
  ticket_count = λ a. 0;
  tickets = λ i. none;
  ticket_refunded = λ i. false;
  factory = none;
  reentrancy_guard = false;
  paused = false;
  admin = none;
  randomness_seed = none;
  randomness_requested = false;
  randomness_request_ledger = 0;
  randomness_request_id = none;
  accumulated_fees = pos 0;
  commit_entries = λ i. none;
  drawing_lock = false;
  ticket_buyers = [];
  owner_tickets = λ a. [];
  pending_admin_cancel = none;
  quorum_seeds = λ a. none;
  quorum_submitted_oracles = [];
  metadata_hash = none;
  last_bumped_index = 0;
  balances = balances;
}

-- The states after calls in any order, from any callers, with ledgers and token transfers in between
-- that are as they please.
pub data Reachable : Contract → Type 0 where
  deployed : (balances : Balances) → Reachable (empty_contract balances)
  called :
      {s t : Contract} (env : Env) (request : Request)
      → Reachable s
      → perform env request s ≡ ok t
      → Reachable t
  elsewhere :
      {s : Contract} (balances : Balances)
      → Reachable s
      → Reachable (record s { balances = balances })
