-- ===== src/Instance/Admin/Guards.antt =====
-- What stands between the admin and a cancel of contracts/raffle-instance/src/admin.rs: the timelock.
use tikka_contracts.Prelude.{ℕ, ◌+◌, ◌≤◌, ◌≡◌, some, arith, ◌∙◌}
use tikka_contracts.Prelude.Outcome.{ok, ◌>>=◌, Returns, Returns-Ensures}
use tikka_contracts.Shared.Types.{admin_cancelled}
use tikka_contracts.Shared.Constants.{timelock_delay_seconds}
use tikka_contracts.Instance.State.{Contract, Env}
use tikka_contracts.Instance.Admin.{
  cancel_raffle, schedule_cancel, execute_admin_cancel, cancel_now,
}

schedule_lem :
    (env : Env) (s : Contract)
    → Returns
        (λ t. t.pending_admin_cancel ≡ some (env.timestamp + timelock_delay_seconds))
        (cancel_raffle env admin_cancelled s)
unfolding cancel_raffle schedule_cancel ◌>>=◌
schedule_lem env s = Returns-Ensures _ (ground arith)

execute_lem :
    (env : Env) (s : Contract) (at : ℕ)
    → s.pending_admin_cancel ≡ some at
    → Returns (λ _. at ≤ env.timestamp) (execute_admin_cancel env s)
unfolding execute_admin_cancel cancel_now ◌>>=◌
execute_lem env s at h = Returns-Ensures _ (ground arith)

-- A cancel that the admin has scheduled is executed, on a state in which it is still the one that is
-- pending, no earlier than 172_800 seconds after it was scheduled.
pub cancel_timelock :
    (env later : Env) (s t u v : Contract)
    → cancel_raffle env admin_cancelled s ≡ ok t
    → u.pending_admin_cancel ≡ t.pending_admin_cancel
    → execute_admin_cancel later u ≡ ok v
    → env.timestamp + 172_800 ≤ later.timestamp
cancel_timelock env later s t u v first same second =
    (execute_lem later u (env.timestamp + timelock_delay_seconds)
        (same ∙ (schedule_lem env s).at first)).at
      second
