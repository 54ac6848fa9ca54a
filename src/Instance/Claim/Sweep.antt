-- ===== src/Instance/Claim/Sweep.antt =====
-- The number of prizes in one call of `sweep_unclaimed` (contracts/raffle-instance/src/claim.rs).
use tikka_contracts.Prelude.{◌≡◌, ℕ, zero, suc, ◌+◌, ◌-◌, ◌≤◌, min, arith}
use tikka_contracts.Prelude.Outcome.{
  ok, ◌>>=◌, Returns, Returns-Ensures, Returns-ok, Returns-then, returns_rules,
}
use tikka_contracts.Shared.Types.{Address}
use tikka_contracts.Instance.State.{Raffle, Contract, Env, Call}
use tikka_contracts.Instance.Helpers.{saturating_add_u32}
use tikka_contracts.Instance.Claim.{sweep_one, sweep_range, sweep_limit, sweep_unclaimed}

sweep_one_lem :
    (env : Env) (treasury : Address) (i : ℕ) (acc : Raffle × ℕ × Contract)
    → Returns (λ next. next.1 ≤ acc.1 + 1) (sweep_one env treasury i acc)
unfolding sweep_one ◌>>=◌
sweep_one_lem env treasury i acc = Returns-Ensures _ (ground arith)

sweep_range_lem :
    (env : Env) (treasury : Address) (i count : ℕ) (acc : Raffle × ℕ × Contract)
    → Returns (λ next. next.1 ≤ acc.1 + count) (sweep_range env treasury i count acc)
unfolding sweep_range
sweep_range_lem env treasury i zero acc = Returns-ok acc (omega arith)
sweep_range_lem env treasury i (suc count) acc =
    Returns-then _ (sweep_one_lem env treasury i acc) (λ next h. record {
      at = λ {a = last} e. omega (arith, h, (sweep_range_lem env treasury (i + 1) count next).at e);
    })

window_lem :
    (start limit len : ℕ) → min (saturating_add_u32 start (sweep_limit limit)) len - start ≤ 10
window_lem start limit len = ground arith

zero_le : 0 ≤ 10
zero_le = omega arith

sweep_unclaimed_lem :
    (env : Env) (start limit : ℕ) (s : Contract)
    → Returns (λ r. r.0 ≤ 10) (sweep_unclaimed env start limit s)
unfolding sweep_unclaimed
sweep_unclaimed_lem env start limit s = search (range-then, zero_le, returns_rules) depth 40
  where
    range-then :
        {A : Type 0} {P : A → Type 0} (treasury : Address) (len : ℕ) (raffle : Raffle)
        (u : Contract) (f : Raffle × ℕ × Contract → Call A)
        → ((next : Raffle × ℕ × Contract) → next.1 ≤ 10 → Returns P (f next))
        → Returns P (
            sweep_range env treasury start
              (min (saturating_add_u32 start (sweep_limit limit)) len - start)
              (raffle, 0, u)
            >>= f)
    range-then treasury len raffle u f k =
        Returns-then f (sweep_range_lem env treasury start _ (raffle, 0, u))
          (λ next h. k next (omega (arith, h, window_lem start limit len)))

-- A call of `sweep_unclaimed` that succeeds has swept ten prizes at most, whatever limit it is given.
pub sweep_unclaimed-le :
    (env : Env) (start limit : ℕ) (s t : Contract) (swept : ℕ)
    → sweep_unclaimed env start limit s ≡ ok (swept, t)
    → swept ≤ 10
sweep_unclaimed-le env start limit s t swept e = (sweep_unclaimed_lem env start limit s).at e
