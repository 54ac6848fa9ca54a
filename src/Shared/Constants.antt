-- ===== src/Shared/Constants.antt =====
-- contracts/raffle-shared/src/constants.rs
use tikka_contracts.Prelude.{ℕ, ◌*◌}
use tikka_contracts.Prelude.Int.{ℤ, pos}

abbrev pub oracle_timeout_ledgers : ℕ
oracle_timeout_ledgers = 200

abbrev pub max_description_length : ℕ
max_description_length = 1_000

abbrev pub max_tickets_limit : ℕ
max_tickets_limit = 100_000

abbrev pub max_prizes : ℕ
max_prizes = 100

abbrev pub max_category_length : ℕ
max_category_length = 32

abbrev pub min_ticket_price : ℤ
min_ticket_price = pos 10_000

abbrev pub max_prize_amount : ℤ
max_prize_amount = pos 1_000_000_000_000_000_000_000

abbrev pub max_internal_randomness_prize_amount : ℤ
max_internal_randomness_prize_amount = pos 5_000_000_000

abbrev pub default_claim_lockup_seconds : ℕ
default_claim_lockup_seconds = 3_600

abbrev pub max_claim_lockup_seconds : ℕ
max_claim_lockup_seconds = 604_800

abbrev pub min_claim_expiry_seconds : ℕ
min_claim_expiry_seconds = 30 * 24 * 3_600

abbrev pub default_claim_expiry_seconds : ℕ
default_claim_expiry_seconds = min_claim_expiry_seconds

abbrev pub max_sweep_unclaimed_per_call : ℕ
max_sweep_unclaimed_per_call = 10

abbrev pub default_swap_deadline_seconds : ℕ
default_swap_deadline_seconds = 300

abbrev pub max_swap_deadline_seconds : ℕ
max_swap_deadline_seconds = 3_600

abbrev pub emergency_withdraw_delay_seconds : ℕ
emergency_withdraw_delay_seconds = 90 * 24 * 3_600

abbrev pub timelock_delay_seconds : ℕ
timelock_delay_seconds = 172_800

abbrev pub max_protocol_fee_bp : ℕ
max_protocol_fee_bp = 2_000

abbrev pub default_page_limit : ℕ
default_page_limit = 100

abbrev pub max_page_limit : ℕ
max_page_limit = 200

abbrev pub checkpoint_interval : ℕ
checkpoint_interval = 1_000

abbrev pub min_recurring_interval_seconds : ℕ
min_recurring_interval_seconds = 3_600

abbrev pub max_recurring_interval_seconds : ℕ
max_recurring_interval_seconds = 31_536_000
