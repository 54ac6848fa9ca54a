-- ===== src/Factory/State.antt =====
-- What the factory stores (`DataKey` and the types beside it in contracts/raffle-factory/src/lib.rs),
-- and what its host provides. `CreatorProfile` and `PartnerStats` are imported from registry.rs, which
-- is empty: their fields are those of the values that lib.rs builds.
use tikka_contracts.Prelude.{ℕ, Bool, Option, List}
use tikka_contracts.Prelude.Int.{ℤ}
use tikka_contracts.Prelude.Outcome.{Outcome}
use tikka_contracts.Shared.Types.{Address, Bytes, RaffleConfig}
use tikka_contracts.Instance.State.{Contract, Env, Balances}

pub data ConfigKey : Type 0 where
  treasury oracle swap_router : ConfigKey

pub data AdminOp : Type 0 where
  set_config_address : ConfigKey → Address → AdminOp
  set_protocol_fee_bp : ℕ → AdminOp
  update_wasm_hash : Bytes → AdminOp
  approve_oracle remove_oracle : Address → AdminOp

pub record PendingOp : Type 0 where
  pub op : AdminOp
  pub effective_timestamp : ℕ
  pub proposed_by : Address

pub record StateCheckpoint : Type 0 where
  pub index : ℕ
  pub raffle_count : ℕ
  pub ledger_timestamp : ℕ
  pub aggregate_hash : Bytes

pub record RecurringRaffleConfig : Type 0 where
  pub base_config : RaffleConfig
  pub interval_seconds : ℕ
  pub max_rounds : ℕ
  pub auto_fund : Bool

pub record RecurringRaffleEntry : Type 0 where
  pub creator : Address
  pub config : RecurringRaffleConfig
  pub next_due : ℕ
  pub current_round : ℕ
  pub active : Bool
  pub last_raffle_address : Option Address

pub record CreatorProfile : Type 0 where
  pub name : Bytes
  pub verified : Bool
  pub raffles_created : ℕ

pub record PartnerStats : Type 0 where
  pub total_raffles : ℕ
  pub total_volume : ℤ
  pub total_fees_generated : ℤ
  pub first_raffle_at : ℕ
  pub latest_raffle_at : ℕ

pub data ContractError : Type 0 where
  already_initialized not_authorized contract_paused invalid_parameters raffle_not_found :
      ContractError
  admin_transfer_pending no_pending_transfer rate_limit_exceeded no_pending_op : ContractError
  timelock_not_elapsed invalid_raffle_id raffle_not_eligible arithmetic_overflow : ContractError
  treasury_not_set recurring_not_found interval_not_elapsed max_rounds_reached : ContractError
  recurring_inactive creation_paused caller_not_registered_raffle : ContractError
  randomness_source_too_weak_for_prize : ContractError

abbrev pub FactoryCall {ℓ} : Type ℓ → Type ℓ
FactoryCall A = Outcome ContractError A

abbrev pub Leaderboard : Type 0
Leaderboard = List (Address × ℤ)

-- One field for each `DataKey`, then the contracts that the factory has deployed and the balances. A
-- category is looked up by its bytes. Keys that lib.rs uses without declaring them have a field too.
pub record Factory : Type 0 where
  pub initialized : Bool
  pub admin : Option Address
  pub raffle_by_id : ℕ → Option Address
  pub next_raffle_id : ℕ
  pub raffle_count : ℕ
  pub instance_wasm_hash : Option Bytes
  pub protocol_fee_bp : ℕ
  pub treasury : Option Address
  pub paused : Bool
  pub pending_admin : Option Address
  pub pending_op : ℕ → Option PendingOp
  pub op_counter : ℕ
  pub checkpoint : ℕ → Option StateCheckpoint
  pub latest_checkpoint_index : ℕ
  pub total_raffles_created : ℕ
  pub unique_participant : Address → Bool
  pub total_unique_participants : ℕ
  pub min_creation_delay : ℕ
  pub last_creation_time : Address → ℕ
  pub total_volume_per_asset : Address → ℤ
  pub creator_raffles : Address → List Address
  pub category_raffles : Bytes → List Address
  pub recurring_raffle : ℕ → Option RecurringRaffleEntry
  pub next_recurring_id : ℕ
  pub recurring_raffle_instances : ℕ → List Address
  pub creation_paused : Bool
  pub valid_raffle : Address → Bool
  pub is_factory_raffle : Address → Bool
  pub approved_oracle : Address → Bool
  pub whitelisted_partner : Address → Bool
  pub partners_list : List Address
  pub partner_stats : Address → Option PartnerStats
  pub top_by_tickets : Leaderboard
  pub top_by_prize : Leaderboard
  pub top_by_volume : Leaderboard
  pub global_emergency_pause : Bool
  pub raffle_creator : ℕ → Option Address
  pub raffle_category : ℕ → Option Bytes
  pub creator_profile : Address → Option CreatorProfile
  pub instances : Address → Option Contract
  pub balances : Balances

-- The host of a call to the factory: that of every contract, the calling contract, the encodings under
-- the salts, and where a contract is deployed, if it can be.
pub record FactoryEnv : Type 0 where
  pub host : Env
  pub caller : Address
  pub creation_xdr : Address → Bytes → Bytes
  pub nonce_xdr : Address → ℕ → Bytes
  pub deploy : Bytes → Bytes → Option Address
  pub deployed_address : Bytes → Address

abbrev pub factory_address : FactoryEnv → Address
factory_address env = env.host.current_contract_address
