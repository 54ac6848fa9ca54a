-- ===== src/Instance/Init.antt =====
-- `init` of contracts/raffle-instance/src/lib.rs, which is the one that the contract exports (that of
-- init.rs is not called), and `deposit_prize` of contracts/raffle-instance/src/init.rs.
use tikka_contracts.Prelude.{
  ℕ, ◌+◌, ◌^◌, Bool, true, false, not, ◌&&◌, ◌||◌, Option, none, some, List, [], ◌∷◌, ltb, leb,
  ◌==◌, length, is_some, or_else,
}
use tikka_contracts.Prelude.Int.{ltb_ℤ}
use tikka_contracts.Prelude.Outcome.{ok, ◌>>=◌, ◌>>◌, reject_if}
use tikka_contracts.Shared.Types.{
  Address, RaffleConfig, RandomnessSource, internal, external, commit_reveal, quorum,
  resolve_defaults, exceeds_internal_randomness_cap,
}
use tikka_contracts.Shared.Constants.{
  max_description_length, max_tickets_limit, min_ticket_price, max_prize_amount, max_prizes,
  max_claim_lockup_seconds, min_claim_expiry_seconds, max_swap_deadline_seconds,
  default_claim_lockup_seconds, default_claim_expiry_seconds, default_swap_deadline_seconds,
}
use tikka_contracts.Shared.Status.{pending_prize, active}
use tikka_contracts.Shared.Validate.{bytes_eq, zero_hash, with_address_cap}
use tikka_contracts.Instance.State.{
  Raffle, Contract, Env, Call, already_initialized, invalid_parameters, invalid_end_time,
  invalid_ticket_range, randomness_source_too_weak_for_prize, too_many_prizes,
  invalid_token_address, prize_already_deposited,
}
use tikka_contracts.Instance.Helpers.{
  require_auth, require_not_paused, read_raffle, write_raffle, transition_status, try_transfer,
}
use tikka_contracts.Instance.Draw.{is_registered}

unfoldable pub check_schedule : ℕ → RaffleConfig → Call (Unit {0})
check_schedule now c = do
  reject_if (ltb max_description_length (length c.description)) invalid_parameters
  reject_if (c.no_deadline && not (c.end_time == 0)) invalid_parameters
  reject_if (not c.no_deadline && leb c.end_time now) invalid_parameters
  reject_if (not (c.end_time == 0) && leb c.end_time now) invalid_end_time

unfoldable pub check_supply : RaffleConfig → Call (Unit {0})
check_supply c = do
  reject_if (c.max_tickets == 0 || ltb max_tickets_limit c.max_tickets) invalid_parameters
  reject_if (ltb c.max_tickets c.min_tickets) invalid_ticket_range
  reject_if (c.max_tickets_per_tx == 0 || ltb c.max_tickets c.max_tickets_per_tx) invalid_parameters
  reject_if (ltb 0 c.max_tickets_per_address && ltb c.max_tickets c.max_tickets_per_address)
      invalid_parameters

-- `for prize_bp in prizes`
unfoldable pub check_shares : ℕ → List ℕ → Call ℕ
check_shares total [] = ok total
check_shares total (bp ∷ bps) =
    reject_if (ltb 10_000 bp) invalid_parameters
    >> (reject_if (not (ltb (total + bp) (2 ^ 32))) invalid_parameters
        >> check_shares (total + bp) bps)

unfoldable pub check_pricing : RaffleConfig → Call (Unit {0})
unfolding check_shares exceeds_internal_randomness_cap
check_pricing c = do
  reject_if (ltb_ℤ c.ticket_price min_ticket_price) invalid_parameters
  reject_if (ltb_ℤ c.prize_amount c.ticket_price) invalid_parameters
  reject_if (ltb_ℤ max_prize_amount c.prize_amount) invalid_parameters
  reject_if (exceeds_internal_randomness_cap c.randomness_source c.prize_amount)
      randomness_source_too_weak_for_prize
  reject_if (length c.prizes == 0) invalid_parameters
  reject_if (ltb max_prizes (length c.prizes)) too_many_prizes
  reject_if (ltb c.max_tickets (length c.prizes)) invalid_parameters
  total ← check_shares 0 c.prizes
  reject_if (not (total == 10_000)) invalid_parameters
  reject_if (ltb 10_000 c.protocol_fee_bp) invalid_parameters
  reject_if (ltb 0 c.protocol_fee_bp && not (is_some c.treasury_address)) invalid_parameters

-- `Some(addr) if addr == current_contract_address` and `None` are refused
abbrev pub is_foreign : Address → Option Address → Bool
is_foreign self none = false
is_foreign self (some a) = not (a == self)

-- `!= External && != Quorum { k: 1, oracles: [] }`; the latter has failed `k <= oracles.len()` before.
unfoldable pub check_source : Address → RandomnessSource → Option Address → Call (Unit {0})
check_source self external oracle = reject_if (not (is_foreign self oracle)) invalid_parameters
check_source self (quorum q) oracle = do
  reject_if (q.k == 0 || ltb (length q.oracles) q.k) invalid_parameters
  reject_if (ltb 10 (length q.oracles)) invalid_parameters
  reject_if (is_registered q.oracles self) invalid_parameters
  reject_if (is_some oracle) invalid_parameters
check_source self internal oracle = reject_if (is_some oracle) invalid_parameters
check_source self commit_reveal oracle = reject_if (is_some oracle) invalid_parameters

unfoldable pub check_windows : RaffleConfig → Call (Unit {0})
check_windows c = do
  let lockup = or_else c.claim_lockup_seconds default_claim_lockup_seconds
  let expiry = or_else c.claim_expiry_seconds default_claim_expiry_seconds
  reject_if (ltb max_claim_lockup_seconds lockup) invalid_parameters
  reject_if (ltb expiry min_claim_expiry_seconds) invalid_parameters
  reject_if (leb expiry lockup) invalid_parameters
  reject_if
      (ltb max_swap_deadline_seconds
        (or_else c.swap_deadline_seconds default_swap_deadline_seconds))
      invalid_parameters

unfoldable pub check_early_bird : RaffleConfig → Call (Unit {0})
check_early_bird c = do
  reject_if (ltb 100 c.early_bird_ticket_percentage) invalid_parameters
  reject_if (ltb 0 c.early_bird_ticket_percentage && ltb 10_000 c.early_bird_discount_bp)
      invalid_parameters

abbrev pub new_raffle : Address → RaffleConfig → Raffle
new_raffle creator c = record {
  creator = creator;
  description = c.description;
  end_time = c.end_time;
  no_deadline = c.no_deadline;
  max_tickets = c.max_tickets;
  max_tickets_per_tx = c.max_tickets_per_tx;
  max_tickets_per_address = c.max_tickets_per_address;
  min_tickets = c.min_tickets;
  allow_multiple = c.allow_multiple;
  ticket_price = c.ticket_price;
  payment_token = c.payment_token;
  prize_token = c.payment_token;
  prize_amount = c.prize_amount;
  prizes = c.prizes;
  tickets_sold = 0;
  status = pending_prize;
  prize_deposited = false;
  winners = [];
  randomness_source = c.randomness_source;
  oracle_address = c.oracle_address;
  protocol_fee_bp = c.protocol_fee_bp;
  treasury_address = c.treasury_address;
  swap_router = c.swap_router;
  tikka_token = c.tikka_token;
  finalized_at = none;
  claim_lockup_seconds = or_else c.claim_lockup_seconds default_claim_lockup_seconds;
  claim_expiry_seconds = or_else c.claim_expiry_seconds default_claim_expiry_seconds;
  swap_deadline_seconds = or_else c.swap_deadline_seconds default_swap_deadline_seconds;
  ticket_sales_paused = false;
  early_bird_ticket_percentage = c.early_bird_ticket_percentage;
  early_bird_discount_bp = c.early_bird_discount_bp;
  metadata_hash = c.metadata_hash;
  unique_winners = c.unique_winners;
  bundles = c.bundles;
  nft_contract = c.nft_contract;
}

unfoldable pub init : Env → Address → Address → Address → RaffleConfig → Contract → Call Contract
unfolding check_schedule check_supply check_pricing check_source check_windows check_early_bird
    resolve_defaults bytes_eq
init env factory admin creator c s = do
  reject_if (is_some s.raffle) already_initialized
  check_schedule env.timestamp c
  check_supply c
  check_pricing c
  check_source env.current_contract_address c.randomness_source c.oracle_address
  reject_if (bytes_eq c.metadata_hash zero_hash) invalid_parameters
  reject_if (not (env.has_decimals c.payment_token)) invalid_token_address
  let resolved = with_address_cap (resolve_defaults c)
  check_windows resolved
  check_early_bird resolved
  ok (record (write_raffle (new_raffle creator resolved) s) {
    factory = some factory;
    admin = some admin;
  })

unfoldable pub deposit_prize : Env → Contract → Call Contract
unfolding require_not_paused try_transfer transition_status
deposit_prize env s = do
  require_not_paused s
  raffle ← read_raffle s
  require_auth env raffle.creator
  reject_if raffle.prize_deposited prize_already_deposited
  s1 ←
      try_transfer env raffle.payment_token raffle.creator env.current_contract_address
        raffle.prize_amount s
  (changed, s2) ← transition_status (record raffle { prize_deposited = true }) active s1
  ok s2
