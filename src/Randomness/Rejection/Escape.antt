-- ===== src/Randomness/Rejection/Escape.antt =====
-- The rejection loop of contracts/raffle-instance/src/randomness.rs, over the seeds that it redraws.
use mathlib.Core.Path.{subst}
use native.Mathlib.Nat.{lt-div-mul-add, div-mul-le_self}
use tikka_contracts.Prelude.{
  inl, inr, Bool-cases, lt→ltb, ℕ, zero, suc, ◌+◌, ◌-◌, ◌*◌, ◌/◌, ◌%◌, ◌^◌, ◌≤◌, ◌<◌, ◌≡◌, refl,
  Bool, true, ◌&&◌, some, arith, ltb, ltb→lt,
}
use tikka_contracts.Randomness.Rejection.{lcg_step, largest_multiple, sample, u64_max}

-- The test of every number under a limit, from the smallest up.
scan : (ℕ → Bool) → ℕ → Bool
scan test zero = true
scan test (suc limit) = scan test limit && test limit

scan_finds : (test : ℕ → Bool) (d limit : ℕ) → d < limit → scan test limit ≡ true → test d ≡ true
unfolding scan
scan_finds test d zero small all = absurd (omega arith)
scan_finds test d (suc limit) small all = ground (arith, scan_finds test d limit)

-- A seed `d` below the top of the range is sent below the last 100_000 values.
escapes : ℕ → Bool
unfolding lcg_step
escapes d = ltb (lcg_step (2 ^ 64 - 1 - d)) (2 ^ 64 - 100_000)

table : scan (λ i. scan (λ j. escapes (317 * i + j)) 317) 317 ≡ true
unfolding scan escapes
table = refl

-- Two nested scans cover the 100_000 values.
escapes_all : (d : ℕ) → d < 100_000 → escapes d ≡ true
escapes_all d h = subst (λ k. escapes k ≡ true) split found
  where
    split : 317 * (d / 317) + d % 317 ≡ d
    split = omega arith

    row : scan (λ j. escapes (317 * (d / 317) + j)) 317 ≡ true
    row = scan_finds (λ i. scan (λ j. escapes (317 * i + j)) 317) (d / 317) 317 (omega arith) table

    found : escapes (317 * (d / 317) + d % 317) ≡ true
    found = scan_finds (λ j. escapes (317 * (d / 317) + j)) (d % 317) 317 (omega arith) row

-- A seed among the last 100_000 of the range is redrawn to one that is not.
lcg_step-escapes :
    (seed : ℕ) → seed < 2 ^ 64 → 2 ^ 64 - 100_000 ≤ seed → lcg_step seed < 2 ^ 64 - 100_000
lcg_step-escapes seed s h =
    ltb→lt _ _ (subst (λ k. ltb (lcg_step k) (2 ^ 64 - 100_000) ≡ true) back found)
  where
    back : 2 ^ 64 - 1 - (2 ^ 64 - 1 - seed) ≡ seed
    back = omega arith

    found : ltb (lcg_step (2 ^ 64 - 1 - (2 ^ 64 - 1 - seed))) (2 ^ 64 - 100_000) ≡ true
    found = unfold escapes in escapes_all (2 ^ 64 - 1 - seed) (omega arith)

-- The acceptance bound misses less than `remaining` values at the top of the range.
pub largest_multiple_bounds :
    (remaining : ℕ)
    → 0 < remaining
    → (2 ^ 64 ≤ largest_multiple remaining + remaining) × (largest_multiple remaining < 2 ^ 64)
unfolding largest_multiple
largest_multiple_bounds remaining h = (
  omega (arith, lt-div-mul-add {a = u64_max} h),
  omega (arith, div-mul-le_self u64_max remaining),
)

-- For at most 100_000 tickets and any 64-bit seed, two rounds are enough: the loop ends, with a
-- candidate under the bound.
pub sample_total :
    (fuel remaining seed : ℕ)
    → 0 < remaining
    → remaining ≤ 100_000
    → seed < 2 ^ 64
    → (c : ℕ) × (sample (suc (suc fuel)) (largest_multiple remaining) seed ≡ some c)
      × (c < largest_multiple remaining)
unfolding sample
sample_total fuel remaining seed p r s = elim (Bool-cases (ltb seed (largest_multiple remaining))) [
  | inl low ↦ (seed, rw low, ltb→lt _ _ low)
  | inr high ↦
      let below : lcg_step seed < largest_multiple remaining =
        ground (arith, lcg_step-escapes seed s, largest_multiple_bounds remaining p) in
      (lcg_step seed, rw (high, lt→ltb _ _ below), below)
]
