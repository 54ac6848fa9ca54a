-- ===== src/Instance/Prize.antt =====
-- `calculate_tier_prize` of contracts/raffle-instance/src/helpers.rs. Its `if` computes a value that it
-- drops; the value of the function is that of the lines behind the `if`, for every tier.
pub mod Shares
pub mod Tiers
use tikka_contracts.Prelude.{
  ℕ, ◌+◌, ◌-◌, leb, List, [], ◌∷◌, ◌==◌, if◌then◌else◌, length, get_elem?, zero, suc, Option,
}
use tikka_contracts.Prelude.Int.{ℤ, pos, checked_mul, checked_add, div_ℤ}
use tikka_contracts.Prelude.Outcome.{ok, err, ◌>>=◌, ◌>>◌, reject_if, ok_or}
use tikka_contracts.Instance.State.{
  Raffle, Call, invalid_parameters, invalid_index, arithmetic_overflow,
}

-- `for i in 0..last_tier_index`, over the prizes before the last
unfoldable pub allocate : ℤ → ℕ → List ℕ → ℤ → Call ℤ
allocate prize_amount zero prizes allocated = ok allocated
allocate prize_amount (suc n) [] allocated = err invalid_index
allocate prize_amount (suc n) (bp ∷ prizes) allocated = do
  scaled ← ok_or (checked_mul prize_amount (pos bp)) arithmetic_overflow
  amt ← ok_or (checked_add scaled allocated) arithmetic_overflow
  next ← ok_or (checked_add allocated amt) arithmetic_overflow
  allocate prize_amount n prizes next

-- The `if`, a statement whose value the source drops: only its early returns show.
unfoldable pub check_allocation : Raffle → ℕ → ℕ → Call (Unit {0})
unfolding allocate
check_allocation raffle tier_index last_tier_index =
    if tier_index == last_tier_index
    then (do allocated ← allocate raffle.prize_amount last_tier_index raffle.prizes (pos 0); ok tt)
    else (do bp ← ok_or (get_elem? raffle.prizes tier_index) invalid_index; ok tt)

-- What follows the `if`, for every tier.
unfoldable pub tier_share : Raffle → ℕ → Call ℤ
tier_share raffle tier_index = do
  bp ← ok_or (get_elem? raffle.prizes tier_index) invalid_index
  scaled ← ok_or (checked_mul raffle.prize_amount (pos bp)) arithmetic_overflow
  ok (div_ℤ scaled 10_000)

unfoldable pub calculate_tier_prize : Raffle → ℕ → Call ℤ
unfolding check_allocation tier_share
calculate_tier_prize raffle tier_index = do
  reject_if (length raffle.prizes == 0) invalid_parameters
  reject_if (leb (length raffle.prizes) tier_index) invalid_index
  let last_tier_index = length raffle.prizes - 1
  check_allocation raffle tier_index last_tier_index
  tier_share raffle tier_index
