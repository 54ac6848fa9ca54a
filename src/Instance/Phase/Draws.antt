-- ===== src/Instance/Phase/Draws.antt =====
-- The drawing lock under the calls of contracts/raffle-instance/src/draw.rs.
use tikka_contracts.Prelude.{ℕ, Bool, true, false, not, Option, none, List, ◌≡◌, refl, arith}
use tikka_contracts.Prelude.Outcome.{
  ok, ◌>>=◌, ◌>>◌, reject_if, Ensures, Returns, Returns-Ensures, Returns-bind, Returns-if,
  Returns-ok, Returns-then, returns_rules,
}
use tikka_contracts.Shared.Types.{Address, Bytes, is_external}
use tikka_contracts.Shared.Status.{RaffleStatus, failed, status_eq}
use tikka_contracts.Instance.State.{Raffle, Contract, Env, Call, drawing_not_started}
use tikka_contracts.Instance.Helpers.{
  transition_status, transition_to_drawing, request_randomness, revert_status, bump_raffle_ttl,
}
use tikka_contracts.Instance.Finalize.{Drawn, settle, do_finalize_with_seed, clear_quorum_storage}
use tikka_contracts.Instance.Draw.{
  finalize_raffle, start_draw, request_or_revert, provide_randomness, provide_quorum_randomness,
  trigger_randomness_fallback, is_quorum, local_seed, abandon_draw,
}
use tikka_contracts.Instance.Phase.{IsPhased}

-- A call that leaves the phase as it should be.
abbrev pub Phased : Call Contract → Type 0
Phased = Returns IsPhased

settle-IsPhased :
    (env : Env) (raffle : Raffle) (seed : ℕ) (q : Option (List (Address × ℕ))) (d : Drawn)
    (s : Contract)
    → Ensures IsPhased (settle env raffle seed q d s)
unfolding settle transition_status status_eq clear_quorum_storage bump_raffle_ttl ◌>>=◌
settle-IsPhased env raffle seed q d s = ground arith

settle-Phased :
    (env : Env) (raffle : Raffle) (seed : ℕ) (q : Option (List (Address × ℕ))) (d : Drawn)
    (s : Contract)
    → Phased (settle env raffle seed q d s)
settle-Phased env raffle seed q d s = Returns-Ensures _ (settle-IsPhased env raffle seed q d s)

do_finalize_with_seed-Phased :
    (env : Env) (raffle : Raffle) (seed : ℕ) (q : Option (List (Address × ℕ))) (s : Contract)
    → Phased (do_finalize_with_seed env raffle seed q s)
unfolding do_finalize_with_seed
do_finalize_with_seed-Phased env raffle seed q s = search (returns_rules, settle-Phased) depth 60

pub provide_randomness-Phased :
    (env : Env) (seed : ℕ) (key proof : Bytes) (request_id : ℕ) (s : Contract)
    → Phased (provide_randomness env seed key proof request_id s)
unfolding provide_randomness
provide_randomness-Phased env seed key proof request_id s =
    search (returns_rules, do_finalize_with_seed-Phased) depth 60

abandon_draw-Phased : (raffle : Raffle) (s : Contract) → Phased (abandon_draw raffle s)
unfolding abandon_draw transition_status status_eq ◌>>=◌
abandon_draw-Phased raffle s = Returns-Ensures _ (ground arith)

pub trigger_randomness_fallback-Phased :
    (env : Env) (caller : Address) (do_refund : Bool) (s : Contract)
    → Phased (trigger_randomness_fallback env caller do_refund s)
unfolding trigger_randomness_fallback
trigger_randomness_fallback-Phased env caller do_refund s =
    search (returns_rules, do_finalize_with_seed-Phased, abandon_draw-Phased) depth 60

-- The lock is set, whatever the status.
abbrev pub IsLocked : Contract → Type 0
IsLocked s = s.drawing_lock ≡ true

request_or_revert-IsLocked :
    (env : Env) (raffle : Raffle) (pre : RaffleStatus) (s : Contract)
    → IsLocked s
    → Returns (λ answer. IsLocked answer.1) (request_or_revert env raffle pre s)
unfolding request_or_revert request_randomness revert_status ◌>>=◌
request_or_revert-IsLocked env raffle pre s h = Returns-Ensures _ (ground arith)

start_draw-Phased :
    (env : Env) (raffle : Raffle) (pre : RaffleStatus) (s : Contract)
    → IsLocked s
    → Phased (start_draw env raffle pre s)
unfolding start_draw
start_draw-Phased env raffle pre s h =
    Returns-if (is_quorum raffle.randomness_source) _ _
      (λ _.
        Returns-bind _ _
          (λ answer e. Returns-ok _ (λ _. (request_or_revert-IsLocked env raffle pre s h).at e)))
      (λ _.
        Returns-if (is_external raffle.randomness_source) _ _
          (λ _.
            Returns-bind _ _ (λ answer e.
              Returns-ok _ (λ _. (request_or_revert-IsLocked env raffle pre s h).at e)))
          (λ _. do_finalize_with_seed-Phased env raffle (local_seed env raffle s) none s))

pub transition_to_drawing-IsLocked :
    (raffle : Raffle) (s : Contract)
    → Returns (λ moved. IsLocked moved.1) (transition_to_drawing raffle s)
unfolding transition_to_drawing transition_status ◌>>=◌
transition_to_drawing-IsLocked raffle s = Returns-Ensures _ (ground arith)

fail-Phased :
    (raffle : Raffle) (s : Contract)
    → Returns (λ moved. IsPhased moved.1) (transition_status raffle failed s)
unfolding transition_status status_eq ◌>>=◌
fail-Phased raffle s = Returns-Ensures _ (ground arith)

module _ (raffle : Raffle) (s : Contract) {A : Type 0} {P : A → Type 0}
    (f : Raffle × Contract → Call A) where
  pub draw-then :
      ((moved : Raffle × Contract) → IsLocked moved.1 → Returns P (f moved))
      → Returns P (transition_to_drawing raffle s >>= f)
  draw-then h = Returns-then f (transition_to_drawing-IsLocked raffle s) h

  fail-then :
      ((moved : Raffle × Contract) → IsPhased moved.1 → Returns P (f moved))
      → Returns P (transition_status raffle failed s >>= f)
  fail-then h = Returns-then f (fail-Phased raffle s) h

pub finalize_raffle-Phased : (env : Env) (s : Contract) → Phased (finalize_raffle env s)
unfolding finalize_raffle
finalize_raffle-Phased env s =
    search (draw-then, fail-then, returns_rules, start_draw-Phased) depth 60

pub provide_quorum_randomness-Phased :
    (env : Env) (oracle : Address) (seed request_id : ℕ) (s : Contract)
    → Phased (provide_quorum_randomness env oracle seed request_id s)
unfolding provide_quorum_randomness
provide_quorum_randomness-Phased env oracle seed request_id s =
    search (lock-then, returns_rules, do_finalize_with_seed-Phased) depth 60
  where
    lock-then :
        {A : Type 0} {P : A → Type 0} (k : Call A)
        → (IsLocked s → Returns P k)
        → Returns P (reject_if (not s.drawing_lock) drawing_not_started >> k)
    lock-then k h = Returns-bind _ _ (λ a e. h (held s.drawing_lock e))
      where
        held : {a : Unit {0}} (b : Bool) → reject_if (not b) drawing_not_started ≡ ok a → b ≡ true
        held true e = refl
        held false e = cc
