-- ===== src/Factory/Calls/Rounds/Limits.antt =====
-- How many rounds a recurring raffle has, and how far apart they are.
use mathlib.Core.Path.{subst}
use tikka_contracts.Prelude.{
  ℕ, ◌+◌, ◌-◌, ◌<◌, ◌≤◌, ◌^◌, min, false, ◌≡◌, sym, Option, some, List, [], ◌∷◌, ◌++◌, length,
  length-append, arith,
}
use tikka_contracts.Prelude.Outcome.{ok}
use tikka_contracts.Shared.Types.{Address}
use tikka_contracts.Shared.Constants.{min_recurring_interval_seconds}
use tikka_contracts.Factory.State.{Factory, FactoryEnv, RecurringRaffleEntry}
use tikka_contracts.Factory.Recurring.{next_entry, new_entry}
use tikka_contracts.Factory.Calls.{
  FactoryRequest, factory_perform, empty_factory, FactoryReachable, factory_deployed,
  factory_called, raffle_called, moved_elsewhere,
}
use tikka_contracts.Factory.Calls.Frame.{Rounds, rounds_of}
use tikka_contracts.Factory.Calls.Rounds.{RoundStep, untouched, opened, closed, advanced}
use tikka_contracts.Factory.Calls.Rounds.Steps.{factory_perform-RoundsStep}

-- The round counter is the number of raffles, up to the largest `u32`.
pub record HasRounds (entry : RecurringRaffleEntry) (raffles : List Address) : Type 0 where
  pub counted : entry.current_round ≡ min (length raffles) (2 ^ 32 - 1)
  pub capped :
      0 < entry.config.max_rounds
      → entry.config.max_rounds < 2 ^ 32
      → length raffles ≤ entry.config.max_rounds
  pub apart : min_recurring_interval_seconds ≤ entry.config.interval_seconds

length-snoc : (xs : List Address) (a : Address) → length (xs ++ a ∷ []) ≡ length xs + 1
length-snoc xs a = length-append xs (a ∷ [])

pub step-HasRounds :
    (env : FactoryEnv) {before : Option RecurringRaffleEntry} {old new : List Address}
    {entry : RecurringRaffleEntry}
    → ((last : RecurringRaffleEntry) → before ≡ some last → HasRounds last old)
    → RoundStep env before old entry new
    → HasRounds entry new
step-HasRounds env {new = new} {entry = entry} h (untouched e f) =
    subst (HasRounds entry) (sym f) (h entry e)
step-HasRounds env {new = new} h (opened creator config k e f) =
    subst (λ d. HasRounds d new) (sym e)
      (subst (HasRounds (new_entry env creator config)) (sym f)
        (record { counted = omega arith; capped = λ p q. omega arith; apart = k }))
step-HasRounds env {new = new} h (closed last e d f) =
    subst (λ d. HasRounds d new) (sym d)
      (subst (HasRounds (record last { active = false })) (sym f) (record {
        counted = (h last e).counted;
        capped = (h last e).capped;
        apart = (h last e).apart;
      }))
step-HasRounds env {old = old} {new = new} h (advanced last address e due d f) =
    subst (λ d. HasRounds d new) (sym d)
      (subst (HasRounds (next_entry env address last)) (sym f) (record {
        counted = omega (arith, (h last e).counted, length-snoc old address);
        capped = λ p q. omega (
          arith,
          (h last e).counted,
          length-snoc old address,
          (h last e).capped p q,
          due.left p,
          p,
          q,
        );
        apart = (h last e).apart;
      }))

abbrev pub HaveRounds : Rounds → Type 0
HaveRounds r =
    (id : ℕ) (entry : RecurringRaffleEntry)
    → r.entries id ≡ some entry
    → HasRounds entry (r.raffles id)

pub call-HaveRounds :
    (env : FactoryEnv) (request : FactoryRequest) (s t : Factory)
    → factory_perform env request s ≡ ok t
    → HaveRounds (rounds_of s)
    → HaveRounds (rounds_of t)
call-HaveRounds env request s t f h id entry e =
    step-HasRounds env (h id) ((factory_perform-RoundsStep env request s).at f id entry e)

-- After any calls, the round counter of a recurring raffle is the number of raffles that its rounds have
-- created, up to the largest `u32`; they are no more than the greatest number of rounds, where one is set;
-- and its interval is an hour or more.
pub FactoryReachable-HasRounds :
    {s : Factory}
    → FactoryReachable s
    → (id : ℕ) (entry : RecurringRaffleEntry) → s.recurring_raffle id ≡ some entry
    → HasRounds entry (s.recurring_raffle_instances id)
unfolding empty_factory
FactoryReachable-HasRounds (factory_deployed balances) id entry e = cc
FactoryReachable-HasRounds (factory_called {s} {t} env request r f) id entry e =
    call-HaveRounds env request s t f (FactoryReachable-HasRounds r) id entry e
FactoryReachable-HasRounds (raffle_called env address c after request r e f) id entry k =
    FactoryReachable-HasRounds r id entry k
FactoryReachable-HasRounds (moved_elsewhere balances r) id entry e =
    FactoryReachable-HasRounds r id entry e
