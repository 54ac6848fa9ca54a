-- ===== src/Factory/Calls/Timelock/Final.antt =====
-- Operations that are executed or cancelled stay so.
use tikka_contracts.Prelude.{
  ℕ, Bool, not, is_some, ◌-◌, ◌<◌, ◌≤◌, ◌^◌, true, false, ◌≡◌, ◌≢◌, refl, sym, ap, ◌⊎◌, inl, inr,
  Option, none, some, arith,
}
use tikka_contracts.Prelude.Outcome.{
  ok, Returns, Returns-bind, Returns-ok, ok_or-eq-ok, reject_if-eq-ok,
}
use tikka_contracts.Factory.State.{Factory, FactoryEnv, PendingOp}
use tikka_contracts.Factory.Config.{execute_config_change, cancel_config_change}
use tikka_contracts.Factory.Calls.{
  empty_factory, FactoryReachable, factory_deployed, factory_called, raffle_called, moved_elsewhere,
  FactoryRun, run_start, run_call, run_raffle_call, run_moved,
}
use tikka_contracts.Factory.Calls.Frame.{Settings, settings_of}
use tikka_contracts.Factory.Calls.Settings.{
  Tends, cancel_config_change-Tends, execute_config_change-Tends,
}
use tikka_contracts.Factory.Calls.Timelock.{factory_perform-Tends}

-- Every stored operation has an id that was handed out.
pub record IsNumbered (s : Settings) : Type 0 where
  pub fits : s.counter < 2 ^ 32
  pub ids : (i : ℕ) (op : PendingOp) → s.ops i ≡ some op → i ≤ s.counter

Tends-IsNumbered : (now : ℕ) (s t : Settings) → Tends now s t → IsNumbered s → IsNumbered t
Tends-IsNumbered now s t h p = record {
  fits = (h.counter_le p.fits).1;
  ids = λ i op e. elim (h.ops i op e) [
    | inl k ↦ omega (arith, (h.counter_le p.fits).0, p.ids i op k)
    | inr k ↦ omega (arith, k.2)
  ];
}

FactoryReachable-IsNumbered : {s : Factory} → FactoryReachable s → IsNumbered (settings_of s)
unfolding empty_factory
FactoryReachable-IsNumbered (factory_deployed balances) = record {
  fits = omega arith;
  ids = λ i op e. cc;
}
FactoryReachable-IsNumbered (factory_called {s} {t} env request h e) =
    Tends-IsNumbered _ (settings_of s) (settings_of t) ((factory_perform-Tends env request s).at e)
      (FactoryReachable-IsNumbered h)
FactoryReachable-IsNumbered (raffle_called env address c after request h e f) =
    FactoryReachable-IsNumbered h
FactoryReachable-IsNumbered (moved_elsewhere balances h) = FactoryReachable-IsNumbered h

record Settles (id : ℕ) (s t : Factory) : Type 0 where
  stored : is_some (s.pending_op id) ≡ true
  none_left : t.pending_op id ≡ none

settled-none :
    (env : FactoryEnv) (id : ℕ) (s : Factory)
    → Returns (Settles id s) (execute_config_change env id s)
unfolding execute_config_change
settled-none env id s = Returns-bind _ _ (λ admin e. Returns-bind _ _ (λ pending e.
    Returns-bind _ _ (λ u k. Returns-bind _ _ (λ t k.
      Returns-ok _
        (record { stored = ap is_some (ok_or-eq-ok _ _ e); none_left = ground arith })))))

cancelled-none :
    (env : FactoryEnv) (id : ℕ) (s : Factory)
    → Returns (Settles id s) (cancel_config_change env id s)
unfolding cancel_config_change
cancelled-none env id s = Returns-bind _ _ (λ admin e. Returns-bind _ _ (λ u e.
    Returns-ok _ (record {
      stored = not_not (is_some (s.pending_op id)) (reject_if-eq-ok _ _ e);
      none_left = ground arith;
    })))
  where
    not_not : (b : Bool) → not b ≡ false → b ≡ true
    not_not true h = refl
    not_not false h = sym h

run-IsNumbered :
    {since : ℕ} {s t : Factory}
    → IsNumbered (settings_of s)
    → FactoryRun since s t
    → IsNumbered (settings_of t)
run-IsNumbered p run_start = p
run-IsNumbered p (run_call {t} {u} env request run later f) =
    Tends-IsNumbered _ (settings_of t) (settings_of u) ((factory_perform-Tends env request t).at f)
      (run-IsNumbered p run)
run-IsNumbered p (run_raffle_call address after run) = run-IsNumbered p run
run-IsNumbered p (run_moved balances run) = run-IsNumbered p run

-- An id that is handed out, and holds no operation.
record IsSpent (id : ℕ) (s : Settings) : Type 0 where
  out : id ≤ s.counter
  empty : s.ops id ≡ none

Tends-IsSpent :
    (now id : ℕ) (s t : Settings)
    → Tends now s t
    → s.counter < 2 ^ 32
    → t.counter < 2 ^ 32 - 1
    → IsSpent id s
    → IsSpent id t
Tends-IsSpent now id s t h fits left p = record {
  out = omega (arith, p.out, (h.counter_le fits).0);
  empty = still (t.ops id) refl;
}
  where
    still : (o : Option PendingOp) → t.ops id ≡ o → o ≡ none
    still none e = refl
    still (some op) e = elim (h.ops id op e) [
      | inl k ↦ cc (k, p.empty)
      | inr k ↦ absurd (omega (arith, k.1, k.2, p.out, fits, left))
    ]

-- While ids are left, a spent id stays spent.
run-IsSpent :
    {since id : ℕ} {s t : Factory}
    → IsNumbered (settings_of s)
    → IsSpent id (settings_of s)
    → FactoryRun since s t
    → t.op_counter < 2 ^ 32 - 1
    → IsSpent id (settings_of t)
run-IsSpent p h run_start left = h
run-IsSpent {id = id} p h (run_call {t} {u} env request run later f) left =
    Tends-IsSpent _ id (settings_of t) (settings_of u) tends before left
      (run-IsSpent p h run (omega (arith, (tends.counter_le before).0)))
  where
    tends : Tends env.host.timestamp (settings_of t) (settings_of u)
    tends = (factory_perform-Tends env request t).at f

    before : t.op_counter < 2 ^ 32
    before = (run-IsNumbered p run).fits
run-IsSpent p h (run_raffle_call address after run) left = run-IsSpent p h run left
run-IsSpent p h (run_moved balances run) left = run-IsSpent p h run left

execute-spent :
    (env : FactoryEnv) (id : ℕ) (s : Factory)
    → s.pending_op id ≡ none
    → Returns (λ t. ⊥) (execute_config_change env id s)
unfolding execute_config_change
execute-spent env id s h =
    Returns-bind _ _ (λ admin e. Returns-bind _ _ (λ pending e. cc (h, ok_or-eq-ok _ _ e)))

stored-le : (id : ℕ) (s : Settings) → IsNumbered s → is_some (s.ops id) ≡ true → id ≤ s.counter
stored-le id s p h = found (s.ops id) refl
  where
    found : (o : Option PendingOp) → s.ops id ≡ o → id ≤ s.counter
    found none e = cc (h, ap is_some e)
    found (some op) e = p.ids id op e

settled :
    (env : FactoryEnv) (id : ℕ) (s : Factory) {t : Factory}
    → IsNumbered (settings_of s)
    → Tends env.host.timestamp (settings_of s) (settings_of t)
    → Settles id s t
    → IsNumbered (settings_of t) × IsSpent id (settings_of t)
settled env id s {t} p tends h = (
  Tends-IsNumbered _ (settings_of s) (settings_of t) tends p,
  record {
    out = omega (arith, stored-le id (settings_of s) p h.stored, (tends.counter_le p.fits).0);
    empty = h.none_left;
  },
)

settled_either :
    (env : FactoryEnv) (id : ℕ) (s t : Factory)
    → IsNumbered (settings_of s)
    → (execute_config_change env id s ≡ ok t) ⊎ (cancel_config_change env id s ≡ ok t)
    → IsNumbered (settings_of t) × IsSpent id (settings_of t)
settled_either env id s t p (inl e) =
    settled env id s p ((execute_config_change-Tends env id s).at e) ((settled-none env id s).at e)
settled_either env id s t p (inr e) =
    settled env id s p ((cancel_config_change-Tends env id s).at e) ((cancelled-none env id s).at e)

-- An operation that has been executed or cancelled is not executed afterwards, whatever is called, as long
-- as the counter of operations stays below its largest value.
pub no_second_execution :
    (env later : FactoryEnv) (id : ℕ) {s t u : Factory} {since : ℕ}
    → FactoryReachable s
    → (execute_config_change env id s ≡ ok t) ⊎ (cancel_config_change env id s ≡ ok t)
    → FactoryRun since t u
    → u.op_counter < 2 ^ 32 - 1
    → (v : Factory) → execute_config_change later id u ≢ ok v
no_second_execution env later id {s} {t} {u} r h run left v e =
    (execute-spent later id u (run-IsSpent after.0 after.1 run left).empty).at e
  where
    after : IsNumbered (settings_of t) × IsSpent id (settings_of t)
    after = settled_either env id s t (FactoryReachable-IsNumbered r) h
