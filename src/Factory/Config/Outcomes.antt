-- ===== src/Factory/Config/Outcomes.antt =====
-- What `execute_config_change` returns in every case.
use tikka_contracts.Prelude.{
  ℕ, ◌≤◌, ◌<◌, Bool, true, false, ltb, ◌≡◌, ◌≢◌, refl, Option, none, some, arith,
}
use tikka_contracts.Prelude.Outcome.{
  Outcome, ok, err, trap, ◌>>=◌, ◌>>◌, reject_if, ok_or, trap_unless,
}
use tikka_contracts.Shared.Types.{Address}
use tikka_contracts.Instance.State.{update}
use tikka_contracts.Factory.State.{
  Factory, FactoryEnv, PendingOp, AdminOp, set_config_address, set_protocol_fee_bp,
  update_wasm_hash, approve_oracle, remove_oracle, ContractError, not_authorized, no_pending_op,
  timelock_not_elapsed,
}
use tikka_contracts.Factory.Roles.{require_admin, require_valid_role_address}
use tikka_contracts.Factory.Config.{apply_op, execute_config_change}

-- The factory has an admin, who has signed the call.
pub record IsSigned (env : FactoryEnv) (s : Factory) : Type 0 where
  pub admin : Address
  pub stored : s.admin ≡ some admin
  pub signed : env.host.authorized admin ≡ true

-- One case for each way that an execution can end.
pub data Executes (env : FactoryEnv) (id : ℕ) (s : Factory)
    : Outcome ContractError Factory → Type 0 where
  no_admin : s.admin ≡ none → Executes env id s (err not_authorized)
  unsigned :
      (admin : Address)
      → s.admin ≡ some admin
      → env.host.authorized admin ≡ false
      → Executes env id s trap
  missing : IsSigned env s → s.pending_op id ≡ none → Executes env id s (err no_pending_op)
  early :
      IsSigned env s
      → (pending : PendingOp) → s.pending_op id ≡ some pending
      → env.host.timestamp < pending.effective_timestamp
      → Executes env id s (err timelock_not_elapsed)
  refused :
      IsSigned env s
      → (pending : PendingOp) (e : ContractError) → s.pending_op id ≡ some pending
      → pending.effective_timestamp ≤ env.host.timestamp
      → apply_op env pending.op s ≡ err e
      → Executes env id s (err e)
  applied :
      IsSigned env s
      → (pending : PendingOp) (t : Factory) → s.pending_op id ≡ some pending
      → pending.effective_timestamp ≤ env.host.timestamp
      → apply_op env pending.op s ≡ ok t
      → Executes env id s (ok (record t { pending_op = update t.pending_op id none }))

apply_op-total : (env : FactoryEnv) (op : AdminOp) (s : Factory) → apply_op env op s ≢ trap
unfolding apply_op require_valid_role_address ◌>>=◌
apply_op-total env (set_config_address key a) s e = ground arith
apply_op-total env (set_protocol_fee_bp fee) s e = ground arith
apply_op-total env (update_wasm_hash hash) s e = cc
apply_op-total env (approve_oracle a) s e = cc
apply_op-total env (remove_oracle a) s e = cc

-- The call from the operation on, from the lookup on, and from the signature on.
module _ (env : FactoryEnv) (id : ℕ) (s : Factory) where
  abbrev remove : Factory → Outcome ContractError Factory
  remove t = ok (record t { pending_op = update t.pending_op id none })

  remove-Executes :
      IsSigned env s
      → (pending : PendingOp) (m : Outcome ContractError Factory) → s.pending_op id ≡ some pending
      → pending.effective_timestamp ≤ env.host.timestamp
      → apply_op env pending.op s ≡ m
      → Executes env id s (m >>= remove)
  unfolding ◌>>=◌
  remove-Executes g pending (ok t) p h e = applied g pending t p h e
  remove-Executes g pending (err x) p h e = refused g pending x p h e
  remove-Executes g pending trap p h e = absurd (apply_op-total env pending.op s e)

  abbrev wait : PendingOp → Outcome ContractError Factory
  wait pending =
      reject_if (ltb env.host.timestamp pending.effective_timestamp) timelock_not_elapsed
      >> (apply_op env pending.op s >>= remove)

  wait-Executes :
      IsSigned env s
      → (pending : PendingOp) → s.pending_op id ≡ some pending
      → Executes env id s (wait pending)
  unfolding ◌>>=◌
  wait-Executes g pending p =
      at (ltb env.host.timestamp pending.effective_timestamp) refl
        (λ h. remove-Executes g pending (apply_op env pending.op s) p h refl)
    where
      at :
          (b : Bool)
          → ltb env.host.timestamp pending.effective_timestamp ≡ b
          → (pending.effective_timestamp ≤ env.host.timestamp
              → Executes env id s (apply_op env pending.op s >>= remove))
          → Executes env id s
              (reject_if b timelock_not_elapsed >> (apply_op env pending.op s >>= remove))
      at true e k = early g pending p (ground (arith, e))
      at false e k = k (ground (arith, e))

  find-Executes :
      IsSigned env s
      → (o : Option PendingOp) → s.pending_op id ≡ o
      → Executes env id s (ok_or o no_pending_op >>= wait)
  unfolding ◌>>=◌
  find-Executes g none e = missing g e
  find-Executes g (some pending) e = wait-Executes g pending e

  sign-Executes :
      (admin : Address) (b : Bool)
      → s.admin ≡ some admin
      → env.host.authorized admin ≡ b
      → Executes env id s
          ((trap_unless b >> ok admin) >>= λ a. ok_or (s.pending_op id) no_pending_op >>= wait)
  unfolding ◌>>=◌
  sign-Executes admin true e k =
      find-Executes (record { admin = admin; stored = e; signed = k }) (s.pending_op id) refl
  sign-Executes admin false e k = unsigned admin e k

  admin-Executes :
      (o : Option Address)
      → s.admin ≡ o
      → Executes env id s (
          (ok_or o not_authorized >>= λ admin. trap_unless (env.host.authorized admin) >> ok admin)
          >>= λ a. ok_or (s.pending_op id) no_pending_op >>= wait)
  unfolding ◌>>=◌
  admin-Executes none e = no_admin e
  admin-Executes (some admin) e = sign-Executes admin (env.host.authorized admin) e refl

-- An execution is refused without an admin and traps where the admin has not signed. With the signature of
-- the admin it is refused where no operation is stored, before the operation is due, and where the operation
-- that is due is refused; in all other cases the operation, signed for and due, is applied and removed.
pub execute_config_change-Executes :
    (env : FactoryEnv) (id : ℕ) (s : Factory) → Executes env id s (execute_config_change env id s)
unfolding execute_config_change require_admin
execute_config_change-Executes env id s = admin-Executes env id s s.admin refl
