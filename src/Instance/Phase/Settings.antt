-- ===== src/Instance/Phase/Settings.antt =====
-- The drawing lock under the calls of contracts/raffle-instance/src/admin.rs, `init` and `deposit_prize`.
use tikka_contracts.Prelude.{ℕ, Bool, true, false, ◌≡◌, arith}
use tikka_contracts.Prelude.Int.{ℤ}
use tikka_contracts.Prelude.Outcome.{◌>>=◌, Returns, Returns-Ensures, Returns-then, returns_rules}
use tikka_contracts.Shared.Types.{Address, Bytes, CancelReason, RaffleConfig}
use tikka_contracts.Shared.Status.{active, cancelled, status_eq}
use tikka_contracts.Instance.State.{Raffle, Contract, Env, Call}
use tikka_contracts.Instance.Helpers.{transition_status, try_transfer, transfer}
use tikka_contracts.Instance.Admin.{
  update_oracle_address, set_protocol_fee_bp, set_swap_deadline, cancel_raffle, schedule_cancel,
  cancel_now, execute_admin_cancel, update_metadata_hash, set_paused, set_ticket_sales_paused,
}
use tikka_contracts.Instance.Admin.Tokens.{
  withdraw_fees, rescue_tokens, sweep_dust, wipe_storage, emergency_withdraw,
}
use tikka_contracts.Instance.Init.{init, deposit_prize}
use tikka_contracts.Instance.Phase.{IsPhased}

pub update_oracle_address-Phased :
    (env : Env) (a : Address) (s : Contract)
    → IsPhased s
    → Returns IsPhased (update_oracle_address env a s)
unfolding update_oracle_address ◌>>=◌
update_oracle_address-Phased env a s h = Returns-Ensures _ (ground arith)

pub set_protocol_fee_bp-Phased :
    (env : Env) (n : ℕ) (s : Contract) → IsPhased s → Returns IsPhased (set_protocol_fee_bp env n s)
unfolding set_protocol_fee_bp ◌>>=◌
set_protocol_fee_bp-Phased env n s h = Returns-Ensures _ (ground arith)

pub set_swap_deadline-Phased :
    (env : Env) (n : ℕ) (s : Contract) → IsPhased s → Returns IsPhased (set_swap_deadline env n s)
unfolding set_swap_deadline ◌>>=◌
set_swap_deadline-Phased env n s h = Returns-Ensures _ (ground arith)

cancel_now-Phased : (raffle : Raffle) (s : Contract) → Returns IsPhased (cancel_now raffle s)
unfolding cancel_now status_eq ◌>>=◌
cancel_now-Phased raffle s = Returns-Ensures _ (ground arith)

schedule_cancel-Phased :
    (env : Env) (s : Contract) → IsPhased s → Returns IsPhased (schedule_cancel env s)
unfolding schedule_cancel
schedule_cancel-Phased env s h = search returns_rules depth 30

pub cancel_raffle-Phased :
    (env : Env) (reason : CancelReason) (s : Contract)
    → IsPhased s
    → Returns IsPhased (cancel_raffle env reason s)
unfolding cancel_raffle
cancel_raffle-Phased env reason s h =
    search (schedule_cancel-Phased, cancel_now-Phased, returns_rules) depth 30

pub execute_admin_cancel-Phased :
    (env : Env) (s : Contract) → Returns IsPhased (execute_admin_cancel env s)
unfolding execute_admin_cancel
execute_admin_cancel-Phased env s = search (cancel-then, returns_rules) depth 30
  where
    cancel-then :
        {A : Type 0} {P : A → Type 0} (raffle : Raffle) (f : Contract → Call A)
        → ((t : Contract) → IsPhased t → Returns P (f t))
        → Returns P (cancel_now raffle s >>= f)
    cancel-then raffle f k = Returns-then f (cancel_now-Phased raffle s) k

pub update_metadata_hash-Phased :
    (env : Env) (b : Bytes) (s : Contract)
    → IsPhased s
    → Returns IsPhased (update_metadata_hash env b s)
unfolding update_metadata_hash
update_metadata_hash-Phased env b s h = search returns_rules depth 30

pub set_paused-Phased :
    (env : Env) (b : Bool) (s : Contract) → IsPhased s → Returns IsPhased (set_paused env b s)
unfolding set_paused
set_paused-Phased env b s h = search returns_rules depth 30

pub set_ticket_sales_paused-Phased :
    (env : Env) (a : Address) (b : Bool) (s : Contract)
    → IsPhased s
    → Returns IsPhased (set_ticket_sales_paused env a b s)
unfolding set_ticket_sales_paused status_eq ◌>>=◌
set_ticket_sales_paused-Phased env a b s h = Returns-Ensures _ (ground arith)

transfer-Phased :
    (env : Env) (token from to : Address) (amount : ℤ) (s : Contract)
    → IsPhased s
    → Returns IsPhased (transfer env token from to amount s)
unfolding transfer
transfer-Phased env token from to amount s h = search returns_rules depth 30

try_transfer-Phased :
    (env : Env) (token from to : Address) (amount : ℤ) (s : Contract)
    → IsPhased s
    → Returns IsPhased (try_transfer env token from to amount s)
unfolding try_transfer
try_transfer-Phased env token from to amount s h = search returns_rules depth 30

pub withdraw_fees-Phased :
    (env : Env) (a : Address) (amount : ℤ) (s : Contract)
    → IsPhased s
    → Returns IsPhased (withdraw_fees env a amount s)
unfolding withdraw_fees
withdraw_fees-Phased env a amount s h = search (transfer-then, returns_rules) depth 60
  where
    transfer-then :
        {A : Type 0} {P : A → Type 0} (token from to : Address) (x : ℤ) (f : Contract → Call A)
        → ((t : Contract) → IsPhased t → Returns P (f t))
        → Returns P (transfer env token from to x s >>= f)
    transfer-then token from to x f k = Returns-then f (transfer-Phased env token from to x s h) k

pub rescue_tokens-Phased :
    (env : Env) (token to : Address) (amount : ℤ) (s : Contract)
    → IsPhased s
    → Returns IsPhased (rescue_tokens env token to amount s)
unfolding rescue_tokens
rescue_tokens-Phased env token to amount s h = search (try_transfer-Phased, returns_rules) depth 60

pub sweep_dust-Phased :
    (env : Env) (s : Contract) → IsPhased s → Returns IsPhased (sweep_dust env s)
unfolding sweep_dust
sweep_dust-Phased env s h = search (try_transfer-Phased, returns_rules) depth 60

pub wipe_storage-Phased : (env : Env) (s : Contract) → Returns IsPhased (wipe_storage env s)
unfolding wipe_storage status_eq ◌>>=◌
wipe_storage-Phased env s = Returns-Ensures _ (ground arith)

cancel_undeposited-Phased :
    (raffle : Raffle) (s : Contract)
    → Returns (λ moved. IsPhased moved.1) (transition_status raffle cancelled s)
unfolding transition_status status_eq ◌>>=◌
cancel_undeposited-Phased raffle s = Returns-Ensures _ (ground arith)

pub emergency_withdraw-Phased :
    (env : Env) (caller : Address) (s : Contract)
    → Returns IsPhased (emergency_withdraw env caller s)
unfolding emergency_withdraw
emergency_withdraw-Phased env caller s =
    search (cancel-then, transfer-Phased, returns_rules) depth 60
  where
    cancel-then :
        {A : Type 0} {P : A → Type 0} (raffle : Raffle) (f : Raffle × Contract → Call A)
        → ((m : Raffle × Contract) → IsPhased m.1 → Returns P (f m))
        → Returns P (transition_status raffle cancelled s >>= f)
    cancel-then raffle f k = Returns-then f (cancel_undeposited-Phased raffle s) k

not_drawing : {A : Type 0} → false ≡ true → A
not_drawing e = cc

pub init-Phased :
    (env : Env) (factory admin creator : Address) (c : RaffleConfig) (s : Contract)
    → Returns IsPhased (init env factory admin creator c s)
unfolding init status_eq
init-Phased env factory admin creator c s = search (not_drawing, returns_rules) depth 60

activate-Phased :
    (raffle : Raffle) (s : Contract)
    → Returns (λ moved. IsPhased moved.1) (transition_status raffle active s)
unfolding transition_status status_eq ◌>>=◌
activate-Phased raffle s = Returns-Ensures _ (ground arith)

pub deposit_prize-Phased : (env : Env) (s : Contract) → Returns IsPhased (deposit_prize env s)
unfolding deposit_prize
deposit_prize-Phased env s = search (activate-then, returns_rules) depth 60
  where
    activate-then :
        {A : Type 0} {P : A → Type 0} (raffle : Raffle) (t : Contract)
        (f : Raffle × Contract → Call A)
        → ((m : Raffle × Contract) → IsPhased m.1 → Returns P (f m))
        → Returns P (transition_status raffle active t >>= f)
    activate-then raffle t f k = Returns-then f (activate-Phased raffle t) k
