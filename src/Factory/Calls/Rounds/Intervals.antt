-- ===== src/Factory/Calls/Rounds/Intervals.antt =====
-- How long a recurring raffle waits between two rounds.
use mathlib.Core.Option.{some-injective}
use tikka_contracts.Prelude.{ℕ, ◌<◌, ◌≤◌, ◌≡◌, ◌≢◌, sym, ap, ◌∙◌, Option, some, List, arith}
use tikka_contracts.Prelude.Outcome.{
  ok, Returns, Returns-bind, Returns-then, Returns-ok, ok_or-eq-ok,
}
use tikka_contracts.Shared.Types.{Address}
use tikka_contracts.Shared.Constants.{min_recurring_interval_seconds}
use tikka_contracts.Factory.State.{Factory, FactoryEnv, RecurringRaffleEntry}
use tikka_contracts.Factory.Recurring.{saturating_add_u64, next_entry, trigger_next_round}
use tikka_contracts.Factory.Calls.{
  FactoryReachable, FactoryRun, run_start, run_call, run_raffle_call, run_moved,
}
use tikka_contracts.Factory.Calls.Frame.{Rounds, rounds_of}
use tikka_contracts.Factory.Calls.Rounds.{
  RoundStep, untouched, opened, closed, advanced, check_round-IsDue,
}
use tikka_contracts.Factory.Calls.Rounds.Steps.{factory_perform-RoundsStep}
use tikka_contracts.Instance.State.{update}
use tikka_contracts.Factory.Calls.Rounds.{trigger_next_round-RoundsStep}
use tikka_contracts.Factory.Calls.Rounds.Limits.{
  HasRounds, step-HasRounds, HaveRounds, call-HaveRounds, FactoryReachable-HasRounds,
}

-- No entry at the id is due before the deadline.
abbrev Waits : ℕ → ℕ → Rounds → Type 0
Waits deadline id r =
    (entry : RecurringRaffleEntry) → r.entries id ≡ some entry → deadline ≤ entry.next_due

-- A call from the time `since` on makes no entry due earlier than the least interval later.
step-Waits :
    (since : ℕ) (env : FactoryEnv) {before : Option RecurringRaffleEntry} {old new : List Address}
    {entry : RecurringRaffleEntry}
    → since ≤ env.host.timestamp
    → ((last : RecurringRaffleEntry) → before ≡ some last → HasRounds last old)
    → ((last : RecurringRaffleEntry)
        → before ≡ some last
        → saturating_add_u64 since min_recurring_interval_seconds ≤ last.next_due)
    → RoundStep env before old entry new
    → saturating_add_u64 since min_recurring_interval_seconds ≤ entry.next_due
step-Waits since env {entry = entry} later h w (untouched e f) = w entry e
step-Waits since env later h w (opened creator config k e f) =
    omega (arith, later, k, ap (λ d. d.next_due) e)
step-Waits since env later h w (closed last e d f) = omega (arith, w last e, ap (λ d. d.next_due) d)
step-Waits since env later h w (advanced last address e due d f) =
    omega (arith, later, (h last e).apart, ap (λ d. d.next_due) d)

run-HaveRounds :
    {since : ℕ} {s t : Factory}
    → HaveRounds (rounds_of s)
    → FactoryRun since s t
    → HaveRounds (rounds_of t)
run-HaveRounds h run_start = h
run-HaveRounds h (run_call {t} {u} env request run later f) =
    call-HaveRounds env request t u f (run-HaveRounds h run)
run-HaveRounds h (run_raffle_call address after run) = run-HaveRounds h run
run-HaveRounds h (run_moved balances run) = run-HaveRounds h run

run-Waits :
    {since : ℕ} (id : ℕ) {s t : Factory}
    → HaveRounds (rounds_of s)
    → Waits (saturating_add_u64 since min_recurring_interval_seconds) id (rounds_of s)
    → FactoryRun since s t
    → Waits (saturating_add_u64 since min_recurring_interval_seconds) id (rounds_of t)
run-Waits id h w run_start entry e = w entry e
run-Waits {since} id h w (run_call {t} {u} env request run later f) entry e =
    step-Waits since env later (run-HaveRounds h run id) (run-Waits id h w run)
      ((factory_perform-RoundsStep env request t).at f id entry e)
run-Waits id h w (run_raffle_call address after run) entry e = run-Waits id h w run entry e
run-Waits id h w (run_moved balances run) entry e = run-Waits id h w run entry e

-- The entry that a round has advanced.
record Triggers (env : FactoryEnv) (id : ℕ) (s : Factory) (r : Address × Factory) : Type 0 where
  last : RecurringRaffleEntry
  was : s.recurring_raffle id ≡ some last
  next : r.1.recurring_raffle id ≡ some (next_entry env r.0 last)

trigger_next_round-Triggers :
    (env : FactoryEnv) (id : ℕ) (s : Factory)
    → Returns (Triggers env id s) (trigger_next_round env id s)
unfolding trigger_next_round
trigger_next_round-Triggers env id s = Returns-bind _ _ (λ u e. Returns-bind _ _ (λ entry e.
    Returns-bind _ _ (λ u k. Returns-bind _ _ (λ config k. Returns-bind _ _ (λ r k.
      Returns-ok _ (record {
        last = entry;
        was = ok_or-eq-ok _ _ e;
        next = update_self r.1.recurring_raffle id _;
      }))))))
  where
    update_self :
        (f : ℕ → Option RecurringRaffleEntry) (i : ℕ) (entry : RecurringRaffleEntry)
        → update f i (some entry) i ≡ some entry
    update_self f i entry = ground arith

Triggers-Waits :
    (env : FactoryEnv) (id : ℕ) (s : Factory) (r : Address × Factory)
    → HaveRounds (rounds_of s)
    → Triggers env id s r
    → Waits
        (saturating_add_u64 env.host.timestamp min_recurring_interval_seconds)
        id
        (rounds_of r.1)
Triggers-Waits env id s r h p entry e =
    omega
      (arith, (h id p.last p.was).apart, ap (λ d. d.next_due) (some-injective _ _ (sym p.next ∙ e)))

trigger-early :
    (env : FactoryEnv) (id deadline : ℕ) (s : Factory)
    → Waits deadline id (rounds_of s)
    → env.host.timestamp < deadline
    → Returns (λ r. ⊥) (trigger_next_round env id s)
unfolding trigger_next_round
trigger-early env id deadline s w early = Returns-bind _ _ (λ u e. Returns-bind _ _ (λ entry e.
    Returns-then _ (check_round-IsDue env entry)
      (λ u due. absurd (omega (arith, due.due, w entry (ok_or-eq-ok _ _ e), early)))))

-- After a round of a recurring raffle, no call for the next one succeeds for an hour, or up to the largest
-- time where that comes first, whatever is called in between.
pub no_early_round :
    (env later : FactoryEnv) (id : ℕ) (address : Address) (s t u : Factory)
    → FactoryReachable s
    → trigger_next_round env id s ≡ ok (address, t)
    → FactoryRun env.host.timestamp t u
    → later.host.timestamp < saturating_add_u64 env.host.timestamp min_recurring_interval_seconds
    → (r : Address × Factory) → trigger_next_round later id u ≢ ok r
no_early_round env later id address s t u reached e run early r f =
    (trigger-early later id (saturating_add_u64 env.host.timestamp min_recurring_interval_seconds) u
        (run-Waits id rounds
          (Triggers-Waits env id s (address, t) before
            ((trigger_next_round-Triggers env id s).at e))
          run)
        early).at
      f
  where
    before : HaveRounds (rounds_of s)
    before = FactoryReachable-HasRounds reached

    rounds : HaveRounds (rounds_of t)
    rounds i entry k =
        step-HasRounds env (before i) ((trigger_next_round-RoundsStep env id s).at e i entry k)
