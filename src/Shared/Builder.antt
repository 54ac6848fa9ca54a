-- ===== src/Shared/Builder.antt =====
-- `RaffleConfigBuilder` of contracts/raffle-shared/src/config_builder.rs. Its environment is left out:
-- `build` takes what it reads of it.
pub mod Build
use tikka_contracts.Prelude.{
  ℕ, Bool, true, false, Option, none, some, List, [], ◌∷◌, replicate, or_else,
}
use tikka_contracts.Prelude.Int.{ℤ, pos}
use tikka_contracts.Prelude.Outcome.{Outcome, ok, ◌>>=◌}
use tikka_contracts.Shared.Types.{
  Address, Bytes, RandomnessSource, internal, TicketBundle, RaffleConfig,
}
use tikka_contracts.Shared.Validate.{ConfigValidationError, validate_config}

pub record RaffleConfigBuilder : Type 0 where
  pub description : Bytes
  pub end_time : ℕ
  pub no_deadline : Bool
  pub max_tickets : ℕ
  pub max_tickets_per_tx : Option ℕ
  pub max_tickets_per_address : ℕ
  pub min_tickets : ℕ
  pub allow_multiple : Bool
  pub ticket_price : ℤ
  pub payment_token : Address
  pub prize_amount : ℤ
  pub prizes : List ℕ
  pub randomness_source : RandomnessSource
  pub oracle_address : Option Address
  pub protocol_fee_bp : ℕ
  pub treasury_address : Option Address
  pub swap_router : Option Address
  pub tikka_token : Option Address
  pub metadata_hash : Bytes
  pub claim_lockup_seconds : Option ℕ
  pub claim_expiry_seconds : Option ℕ
  pub swap_deadline_seconds : Option ℕ
  pub early_bird_ticket_percentage : ℕ
  pub early_bird_discount_bp : ℕ
  pub category : Option Bytes
  pub unique_winners : Bool
  pub bundles : List TicketBundle
  pub prize_token : Option Address
  pub nft_contract : Option Address

-- `RaffleConfigBuilder::new`; the description is "Test Raffle".
unfoldable pub new_builder : Address → RaffleConfigBuilder
new_builder payment_token = record {
  description = 84 ∷ 101 ∷ 115 ∷ 116 ∷ 32 ∷ 82 ∷ 97 ∷ 102 ∷ 102 ∷ 108 ∷ 101 ∷ [];
  end_time = 0;
  no_deadline = true;
  max_tickets = 100;
  max_tickets_per_tx = none;
  max_tickets_per_address = 0;
  min_tickets = 1;
  allow_multiple = true;
  ticket_price = pos 10_000;
  payment_token = payment_token;
  prize_amount = pos 10_000;
  prizes = 10_000 ∷ [];
  randomness_source = internal;
  oracle_address = none;
  protocol_fee_bp = 0;
  treasury_address = none;
  swap_router = none;
  tikka_token = none;
  metadata_hash = replicate 32 1;
  claim_lockup_seconds = none;
  claim_expiry_seconds = none;
  swap_deadline_seconds = none;
  early_bird_ticket_percentage = 0;
  early_bird_discount_bp = 0;
  category = none;
  unique_winners = false;
  bundles = [];
  prize_token = none;
  nft_contract = none;
}

unfoldable pub from_config : RaffleConfig → RaffleConfigBuilder
from_config config = record {
  description = config.description;
  end_time = config.end_time;
  no_deadline = config.no_deadline;
  max_tickets = config.max_tickets;
  max_tickets_per_tx = some config.max_tickets_per_tx;
  max_tickets_per_address = config.max_tickets_per_address;
  min_tickets = config.min_tickets;
  allow_multiple = config.allow_multiple;
  ticket_price = config.ticket_price;
  payment_token = config.payment_token;
  prize_amount = config.prize_amount;
  prizes = config.prizes;
  randomness_source = config.randomness_source;
  oracle_address = config.oracle_address;
  protocol_fee_bp = config.protocol_fee_bp;
  treasury_address = config.treasury_address;
  swap_router = config.swap_router;
  tikka_token = config.tikka_token;
  metadata_hash = config.metadata_hash;
  claim_lockup_seconds = config.claim_lockup_seconds;
  claim_expiry_seconds = config.claim_expiry_seconds;
  swap_deadline_seconds = config.swap_deadline_seconds;
  early_bird_ticket_percentage = config.early_bird_ticket_percentage;
  early_bird_discount_bp = config.early_bird_discount_bp;
  category = config.category;
  unique_winners = config.unique_winners;
  bundles = config.bundles;
  prize_token = config.prize_token;
  nft_contract = config.nft_contract;
}

-- The methods that set one field.
abbrev pub with_description : Bytes → RaffleConfigBuilder → RaffleConfigBuilder
with_description description b = record b { description = description }

abbrev pub with_end_time : ℕ → RaffleConfigBuilder → RaffleConfigBuilder
with_end_time end_time b = record b { end_time = end_time }

abbrev pub with_no_deadline : Bool → RaffleConfigBuilder → RaffleConfigBuilder
with_no_deadline no_deadline b = record b { no_deadline = no_deadline }

abbrev pub with_max_tickets : ℕ → RaffleConfigBuilder → RaffleConfigBuilder
with_max_tickets max_tickets b = record b { max_tickets = max_tickets }

abbrev pub with_max_tickets_per_tx : ℕ → RaffleConfigBuilder → RaffleConfigBuilder
with_max_tickets_per_tx max_tickets_per_tx b = record b {
  max_tickets_per_tx = some max_tickets_per_tx;
}

abbrev pub with_max_tickets_per_address : ℕ → RaffleConfigBuilder → RaffleConfigBuilder
with_max_tickets_per_address max_tickets_per_address b = record b {
  max_tickets_per_address = max_tickets_per_address;
}

abbrev pub with_min_tickets : ℕ → RaffleConfigBuilder → RaffleConfigBuilder
with_min_tickets min_tickets b = record b { min_tickets = min_tickets }

abbrev pub with_allow_multiple : Bool → RaffleConfigBuilder → RaffleConfigBuilder
with_allow_multiple allow_multiple b = record b { allow_multiple = allow_multiple }

abbrev pub with_ticket_price : ℤ → RaffleConfigBuilder → RaffleConfigBuilder
with_ticket_price ticket_price b = record b { ticket_price = ticket_price }

abbrev pub with_prize_amount : ℤ → RaffleConfigBuilder → RaffleConfigBuilder
with_prize_amount prize_amount b = record b { prize_amount = prize_amount }

abbrev pub with_prizes : List ℕ → RaffleConfigBuilder → RaffleConfigBuilder
with_prizes prizes b = record b { prizes = prizes }

abbrev pub with_bundles : List TicketBundle → RaffleConfigBuilder → RaffleConfigBuilder
with_bundles bundles b = record b { bundles = bundles }

abbrev pub with_randomness_source : RandomnessSource → RaffleConfigBuilder → RaffleConfigBuilder
with_randomness_source randomness_source b = record b { randomness_source = randomness_source }

abbrev pub with_oracle_address : Option Address → RaffleConfigBuilder → RaffleConfigBuilder
with_oracle_address oracle_address b = record b { oracle_address = oracle_address }

abbrev pub with_protocol_fee_bp : ℕ → RaffleConfigBuilder → RaffleConfigBuilder
with_protocol_fee_bp protocol_fee_bp b = record b { protocol_fee_bp = protocol_fee_bp }

abbrev pub with_treasury_address : Option Address → RaffleConfigBuilder → RaffleConfigBuilder
with_treasury_address treasury_address b = record b { treasury_address = treasury_address }

abbrev pub with_swap_router : Option Address → RaffleConfigBuilder → RaffleConfigBuilder
with_swap_router swap_router b = record b { swap_router = swap_router }

abbrev pub with_tikka_token : Option Address → RaffleConfigBuilder → RaffleConfigBuilder
with_tikka_token tikka_token b = record b { tikka_token = tikka_token }

abbrev pub with_metadata_hash : Bytes → RaffleConfigBuilder → RaffleConfigBuilder
with_metadata_hash metadata_hash b = record b { metadata_hash = metadata_hash }

abbrev pub with_claim_lockup_seconds : ℕ → RaffleConfigBuilder → RaffleConfigBuilder
with_claim_lockup_seconds claim_lockup_seconds b = record b {
  claim_lockup_seconds = some claim_lockup_seconds;
}

abbrev pub with_swap_deadline_seconds : ℕ → RaffleConfigBuilder → RaffleConfigBuilder
with_swap_deadline_seconds swap_deadline_seconds b = record b {
  swap_deadline_seconds = some swap_deadline_seconds;
}

abbrev pub with_early_bird_ticket_percentage : ℕ → RaffleConfigBuilder → RaffleConfigBuilder
with_early_bird_ticket_percentage early_bird_ticket_percentage b = record b {
  early_bird_ticket_percentage = early_bird_ticket_percentage;
}

abbrev pub with_early_bird_discount_bp : ℕ → RaffleConfigBuilder → RaffleConfigBuilder
with_early_bird_discount_bp early_bird_discount_bp b = record b {
  early_bird_discount_bp = early_bird_discount_bp;
}

abbrev pub with_claim_expiry_seconds : ℕ → RaffleConfigBuilder → RaffleConfigBuilder
with_claim_expiry_seconds claim_expiry_seconds b = record b {
  claim_expiry_seconds = some claim_expiry_seconds;
}

abbrev pub with_category : Option Bytes → RaffleConfigBuilder → RaffleConfigBuilder
with_category category b = record b { category = category }

abbrev pub with_unique_winners : Bool → RaffleConfigBuilder → RaffleConfigBuilder
with_unique_winners unique_winners b = record b { unique_winners = unique_winners }

abbrev pub with_prize_token : Option Address → RaffleConfigBuilder → RaffleConfigBuilder
with_prize_token prize_token b = record b { prize_token = prize_token }

abbrev pub with_nft_contract : Option Address → RaffleConfigBuilder → RaffleConfigBuilder
with_nft_contract nft_contract b = record b { nft_contract = nft_contract }

-- The configuration that `build` validates.
unfoldable pub collected : RaffleConfigBuilder → RaffleConfig
collected b = record {
  description = b.description;
  end_time = b.end_time;
  no_deadline = b.no_deadline;
  max_tickets = b.max_tickets;
  max_tickets_per_tx = or_else b.max_tickets_per_tx b.max_tickets;
  max_tickets_per_address = b.max_tickets_per_address;
  min_tickets = b.min_tickets;
  allow_multiple = b.allow_multiple;
  ticket_price = b.ticket_price;
  payment_token = b.payment_token;
  prize_amount = b.prize_amount;
  prizes = b.prizes;
  randomness_source = b.randomness_source;
  oracle_address = b.oracle_address;
  protocol_fee_bp = b.protocol_fee_bp;
  treasury_address = b.treasury_address;
  swap_router = b.swap_router;
  tikka_token = b.tikka_token;
  metadata_hash = b.metadata_hash;
  claim_lockup_seconds = b.claim_lockup_seconds;
  claim_expiry_seconds = b.claim_expiry_seconds;
  swap_deadline_seconds = b.swap_deadline_seconds;
  early_bird_ticket_percentage = b.early_bird_ticket_percentage;
  early_bird_discount_bp = b.early_bird_discount_bp;
  category = b.category;
  unique_winners = b.unique_winners;
  bundles = b.bundles;
  prize_token = b.prize_token;
  nft_contract = b.nft_contract;
}

unfoldable pub build :
    ℕ → (Address → Bool) → RaffleConfigBuilder → Outcome ConfigValidationError RaffleConfig
unfolding collected
build now has_decimals b = validate_config now has_decimals (collected b) none
