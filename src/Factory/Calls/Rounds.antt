-- ===== src/Factory/Calls/Rounds.antt =====
-- What a call does to the entry of a recurring raffle and to the raffles of its rounds.
pub mod Intervals
pub mod Limits
pub mod Steps
use mathlib.Core.Path.{subst}
use mathlib.Core.Option.{some-injective}
use tikka_contracts.Prelude.{
  ℕ, ◌+◌, ◌<◌, ◌≤◌, ◌^◌, min, Bool, true, false, not, ◌&&◌, ◌||◌, ◌==◌, ltb, leb, if◌then◌else◌,
  ◌≡◌, ◌≢◌, refl, sym, ap, ◌∙◌, ◌⊎◌, inl, inr, Option, none, some, List, [], ◌∷◌, ◌++◌, arith,
}
use tikka_contracts.Prelude.Outcome.{
  Outcome, ok, ◌>>=◌, Returns, Returns-bind, Returns-ok, Returns-then, ok_or-eq-ok, reject_if-eq-ok,
  Returns-if, Returns-err, Returns-trap, returns_rules,
}
use tikka_contracts.Shared.Types.{Address, RaffleConfig}
use tikka_contracts.Shared.Constants.{min_recurring_interval_seconds}
use tikka_contracts.Instance.State.{update}
use tikka_contracts.Factory.State.{
  Factory, FactoryEnv, ContractError, RecurringRaffleEntry, RecurringRaffleConfig,
}
use tikka_contracts.Factory.Recurring.{
  saturating_add_u64, new_entry, next_entry, create_recurring_raffle, check_round,
  trigger_next_round, cancel_recurring_raffle,
}
use tikka_contracts.Factory.Calls.Frame.{Rounds, rounds_of}
use tikka_contracts.Factory.Calls.Creation.{create_raffle_internal-rounds}

-- An entry that may have its next round.
pub record IsDue (now : ℕ) (entry : RecurringRaffleEntry) : Type 0 where
  pub active : entry.active ≡ true
  pub due : entry.next_due ≤ now
  pub left : 0 < entry.config.max_rounds → entry.current_round < entry.config.max_rounds

-- How an entry and its raffles arise in one call, from those before it.
pub data RoundStep (env : FactoryEnv) (before : Option RecurringRaffleEntry) (old : List Address)
    (entry : RecurringRaffleEntry) (new : List Address) : Type 0 where
  untouched : before ≡ some entry → new ≡ old → RoundStep env before old entry new
  opened :
      (creator : Address) (config : RecurringRaffleConfig)
      → min_recurring_interval_seconds ≤ config.interval_seconds
      → entry ≡ new_entry env creator config
      → new ≡ []
      → RoundStep env before old entry new
  closed :
      (last : RecurringRaffleEntry)
      → before ≡ some last
      → entry ≡ record last { active = false }
      → new ≡ old
      → RoundStep env before old entry new
  advanced :
      (last : RecurringRaffleEntry) (address : Address)
      → before ≡ some last
      → IsDue env.host.timestamp last
      → entry ≡ next_entry env address last
      → new ≡ old ++ address ∷ []
      → RoundStep env before old entry new

abbrev pub RoundsStep : FactoryEnv → Rounds → Rounds → Type 0
RoundsStep env s t =
    (id : ℕ) (entry : RecurringRaffleEntry)
    → t.entries id ≡ some entry
    → RoundStep env (s.entries id) (s.raffles id) entry (t.raffles id)

pub same-RoundsStep : (env : FactoryEnv) (s t : Rounds) → t ≡ s → RoundsStep env s t
same-RoundsStep env s t h id entry e =
    untouched (sym (ap (λ r. r.entries id) h) ∙ e) (ap (λ r. r.raffles id) h)

-- The entry and the raffles at one id are replaced.
replaced-RoundsStep :
    (env : FactoryEnv) (s : Rounds) (k : ℕ) (entry : RecurringRaffleEntry) (raffles : List Address)
    → RoundStep env (s.entries k) (s.raffles k) entry raffles
    → RoundsStep env s
        (record { entries = update s.entries k (some entry); raffles = update s.raffles k raffles })
replaced-RoundsStep env s k entry raffles h id e = at (id == k) (λ q. ground (arith, q))
  where
    at :
        (b : Bool)
        → (b ≡ true → id ≡ k)
        → (if b then some entry else s.entries id) ≡ some e
        → RoundStep env (s.entries id) (s.raffles id) e (if b then raffles else s.raffles id)
    at true q r =
        subst (λ i. RoundStep env (s.entries i) (s.raffles i) e raffles) (sym (q refl))
          (subst (λ d. RoundStep env (s.entries k) (s.raffles k) d raffles) (some-injective _ _ r)
            h)
    at false q r = untouched r refl

-- The entry alone is replaced.
closed-RoundsStep :
    (env : FactoryEnv) (s : Rounds) (k : ℕ) (last : RecurringRaffleEntry)
    → s.entries k ≡ some last
    → RoundsStep env s
        (record s { entries = update s.entries k (some (record last { active = false })) })
closed-RoundsStep env s k last h id e = at (id == k) (λ q. ground (arith, q))
  where
    at :
        (b : Bool)
        → (b ≡ true → id ≡ k)
        → (if b then some (record last { active = false }) else s.entries id) ≡ some e
        → RoundStep env (s.entries id) (s.raffles id) e (s.raffles id)
    at true q r = closed last (ap s.entries (q refl) ∙ h) (sym (some-injective _ _ r)) refl
    at false q r = untouched r refl

pub create_recurring_raffle-RoundsStep :
    (env : FactoryEnv) (creator : Address) (config : RecurringRaffleConfig) (s : Factory)
    → Returns
        (λ r. RoundsStep env (rounds_of s) (rounds_of r.1))
        (create_recurring_raffle env creator config s)
unfolding create_recurring_raffle
create_recurring_raffle-RoundsStep env creator config s = Returns-bind _ _ (λ u e.
    Returns-bind _ _ (λ u e. Returns-bind _ _ (λ u e. Returns-bind _ _ (λ u k. Returns-ok _ (
      replaced-RoundsStep env (rounds_of s) s.next_recurring_id (new_entry env creator config) []
        (opened creator config (ground (arith, reject_if-eq-ok _ _ e)) refl refl))))))

pub cancel_recurring_raffle-RoundsStep :
    (env : FactoryEnv) (id : ℕ) (caller : Address) (s : Factory)
    → Returns
        (λ t. RoundsStep env (rounds_of s) (rounds_of t))
        (cancel_recurring_raffle env id caller s)
unfolding cancel_recurring_raffle
cancel_recurring_raffle-RoundsStep env id caller s = Returns-bind _ _ (λ entry e.
    Returns-bind _ _ (λ u k.
      Returns-bind _ _
        (λ u k. Returns-ok _ (closed-RoundsStep env (rounds_of s) id entry (ok_or-eq-ok _ _ e)))))

pub check_round-IsDue :
    (env : FactoryEnv) (entry : RecurringRaffleEntry)
    → Returns (λ u. IsDue env.host.timestamp entry) (check_round env entry)
unfolding check_round
check_round-IsDue env entry = Returns-bind _ _ (λ u a. Returns-bind _ _ (λ u b. record {
  at = λ c. record {
    active = ground (arith, reject_if-eq-ok _ _ a);
    due = ground (arith, reject_if-eq-ok _ _ b);
    left = λ h. ground (arith, h, reject_if-eq-ok _ _ c);
  };
}))

pub trigger_next_round-RoundsStep :
    (env : FactoryEnv) (id : ℕ) (s : Factory)
    → Returns (λ r. RoundsStep env (rounds_of s) (rounds_of r.1)) (trigger_next_round env id s)
unfolding trigger_next_round
trigger_next_round-RoundsStep env id s = Returns-bind _ _ (λ u e. Returns-bind _ _ (λ entry e.
    Returns-then _ (check_round-IsDue env entry) (λ u due. Returns-bind _ _ (λ config k.
      Returns-then _ (create_raffle_internal-rounds env entry.creator config s) (λ r same.
        Returns-ok _ (
          subst (λ before. RoundsStep env before (rounds_of (after entry r.0 r.1))) same
            (replaced-RoundsStep env (rounds_of r.1) id (next_entry env r.0 entry)
              (r.1.recurring_raffle_instances id ++ r.0 ∷ [])
              (advanced entry r.0 (ap (λ b. b.entries id) same ∙ ok_or-eq-ok _ _ e) due refl
                refl))))))))
  where
    after : RecurringRaffleEntry → Address → Factory → Factory
    after entry address created = record created {
      recurring_raffle_instances =
          update created.recurring_raffle_instances id
            (created.recurring_raffle_instances id ++ address ∷ []);
      recurring_raffle = update created.recurring_raffle id (some (next_entry env address entry));
    }
