-- ===== src/Instance/State.antt =====
-- What a raffle instance stores (`Raffle`, `Winner`, `FairnessMetadata`, `CommitRevealEntry`, `DataKey`
-- and `Error` of contracts/raffle-instance/src/lib.rs), and what its host provides.
use tikka_contracts.Prelude.{ℕ, Bool, Option, List, ◌==◌, if◌then◌else◌}
use tikka_contracts.Prelude.Int.{ℤ}
use tikka_contracts.Prelude.Outcome.{Outcome}
use tikka_contracts.Shared.Types.{Address, Bytes, RandomnessSource, TicketBundle, Ticket}
use tikka_contracts.Shared.Status.{RaffleStatus}

pub record Winner : Type 0 where
  pub address : Address
  pub claimed : Bool

pub record Raffle : Type 0 where
  pub creator : Address
  pub description : Bytes
  pub end_time : ℕ
  pub no_deadline : Bool
  pub max_tickets : ℕ
  pub max_tickets_per_tx : ℕ
  pub max_tickets_per_address : ℕ
  pub min_tickets : ℕ
  pub allow_multiple : Bool
  pub ticket_price : ℤ
  pub payment_token : Address
  pub prize_token : Address
  pub prize_amount : ℤ
  pub prizes : List ℕ
  pub tickets_sold : ℕ
  pub status : RaffleStatus
  pub prize_deposited : Bool
  pub winners : List Winner
  pub randomness_source : RandomnessSource
  pub oracle_address : Option Address
  pub protocol_fee_bp : ℕ
  pub treasury_address : Option Address
  pub swap_router : Option Address
  pub tikka_token : Option Address
  pub finalized_at : Option ℕ
  pub claim_lockup_seconds : ℕ
  pub claim_expiry_seconds : ℕ
  pub swap_deadline_seconds : ℕ
  pub ticket_sales_paused : Bool
  pub early_bird_ticket_percentage : ℕ
  pub early_bird_discount_bp : ℕ
  pub metadata_hash : Bytes
  pub unique_winners : Bool
  pub bundles : List TicketBundle
  pub nft_contract : Option Address

pub record FairnessMetadata : Type 0 where
  pub seed : ℕ
  pub randomness_source : RandomnessSource
  pub winning_ticket_indices : List ℕ
  pub draw_timestamp : ℕ
  pub draw_sequence : ℕ
  pub unique_winners : Bool
  pub quorum_contributions : Option (List (Address × ℕ))

pub record CommitRevealEntry : Type 0 where
  pub committer : Address
  pub hash : Bytes

-- The variants of `Error`. `drawing_not_started` and `randomness_source_too_weak_for_prize` are used
-- by draw.rs and lib.rs, though the enum does not list them.
pub data Error : Type 0 where
  raffle_inactive tickets_sold_out insufficient_funds not_authorized oracle_not_set : Error
  randomness_already_requested no_randomness_request fallback_too_early : Error
  prize_not_deposited prize_already_claimed prize_already_deposited not_winner : Error
  claim_too_early invalid_parameters invalid_quantity invalid_status contract_paused : Error
  invalid_state_transition raffle_expired multiple_tickets_not_allowed no_tickets_sold : Error
  ticket_not_found arithmetic_overflow already_initialized not_initialized reentrancy : Error
  token_transfer_failed no_active_tickets deadline_passed slippage_exceeded invalid_index : Error
  more_prizes_than_tickets zero_prize invalid_token_address too_many_prizes : Error
  emergency_too_early invalid_ticket_range insufficient_accumulated_fees : Error
  exceeds_max_tickets_per_tx drawing_already_in_progress drawing_already_complete : Error
  invalid_end_time invalid_admin_address randomness_too_early cancel_timelock_active : Error
  cancel_not_scheduled exceeds_max_tickets_per_address oracle_not_registered : Error
  duplicate_oracle_submission commit_already_submitted : Error
  drawing_not_started randomness_source_too_weak_for_prize : Error

abbrev pub Call {ℓ} : Type ℓ → Type ℓ
Call A = Outcome Error A

-- The balance of each holder in each token contract.
abbrev pub Balances : Type 0
Balances = Address → Address → ℤ

-- One field for each `DataKey`, and the token contracts beside them. A field that the source reads
-- with `unwrap_or` holds that default where the key is missing.
pub record Contract : Type 0 where
  pub raffle : Option Raffle
  pub ticket_count : Address → ℕ
  pub tickets : ℕ → Option Ticket
  pub ticket_refunded : ℕ → Bool
  pub factory : Option Address
  pub reentrancy_guard : Bool
  pub paused : Bool
  pub admin : Option Address
  pub randomness_seed : Option FairnessMetadata
  pub randomness_requested : Bool
  pub randomness_request_ledger : ℕ
  pub randomness_request_id : Option ℕ
  pub accumulated_fees : ℤ
  pub commit_entries : ℕ → Option CommitRevealEntry
  pub drawing_lock : Bool
  pub ticket_buyers : List Address
  pub owner_tickets : Address → List ℕ
  pub pending_admin_cancel : Option ℕ
  pub quorum_seeds : Address → Option ℕ
  pub quorum_submitted_oracles : List Address
  pub metadata_hash : Option Bytes
  pub last_bumped_index : ℕ
  pub balances : Balances

-- The host of one call: the ledger, the authorisations, the hash functions and the contracts that the
-- raffle calls. None of it is code of the repository but the factory, which answers by `global_paused`
-- and, by `notified`, whether its notification functions return.
pub record Env : Type 0 where
  pub timestamp : ℕ
  pub sequence : ℕ
  pub current_contract_address : Address
  pub authorized : Address → Bool
  pub exists : Address → Bool
  pub has_decimals : Address → Bool
  pub transfer : Address → Address → Address → ℤ → Balances → Option Balances
  pub global_paused : Bool
  pub notified : Bool
  pub sha256 : Bytes → Bytes
  pub ed25519_verify : Bytes → Bytes → Bytes → Bool
  pub address_xdr : Address → Bytes
  pub ledger_xdr : ℕ → ℕ → Address → Bytes
  pub request_xdr : ℕ → ℕ → Bytes → Bytes
  pub vrf_message_xdr : Address → ℕ → Bytes

-- `storage().set` at a key
abbrev pub update {ℓ} : {A : Type ℓ} → (ℕ → A) → ℕ → A → ℕ → A
update f k v j = if j == k then v else f j
