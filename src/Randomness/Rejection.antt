-- ===== src/Randomness/Rejection.antt =====
-- The rejection sampling of `OracleSeedWinnerSelection::select_winner_indices`: a seed is redrawn by
-- a linear congruential generator until it lies under a multiple of the number of tickets left.
pub mod Escape
use tikka_contracts.Prelude.{
  ℕ, zero, suc, ◌+◌, ◌-◌, ◌*◌, ◌/◌, ◌%◌, ◌^◌, Option, none, some, ltb, if◌then◌else◌,
}

abbrev pub u64_modulus : ℕ
u64_modulus = 2 ^ 64

abbrev pub u64_max : ℕ
u64_max = 2 ^ 64 - 1

-- `wrapping_mul`, then `wrapping_add`
unfoldable pub lcg_step : ℕ → ℕ
lcg_step seed = (seed * 6364136223846793005 % 2 ^ 64 + 1442695040888963407) % 2 ^ 64

unfoldable pub largest_multiple : ℕ → ℕ
largest_multiple remaining = u64_max / remaining * remaining

-- The `loop`, on fuel; `none` means that it is still running.
unfoldable pub sample : ℕ → ℕ → ℕ → Option ℕ
sample zero largest seed = none
sample (suc fuel) largest seed =
    let rest = sample fuel largest (lcg_step seed) in if ltb seed largest then some seed else rest
