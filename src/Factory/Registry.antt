-- ===== src/Factory/Registry.antt =====
-- How contracts/raffle-factory/src/lib.rs creates raffles, indexes them and drops them again. A raffle
-- is deployed with empty storage and initialised by a call of its `init`.
pub mod Fresh
pub mod Parts
pub mod Creates
use tikka_contracts.Prelude.{
  ℕ, zero, suc, ◌+◌, ◌-◌, ◌/◌, ◌%◌, ◌^◌, Bool, true, false, not, ◌&&◌, ◌||◌, Option, none, some,
  List, [], ◌∷◌, ◌++◌, ltb, leb, ◌==◌, if◌then◌else◌, is_some,
}
use tikka_contracts.Prelude.Outcome.{
  Outcome, ok, err, trap, ◌>>=◌, ◌>>◌, reject_if, trap_unless, ok_or, or_trap,
}
use tikka_contracts.Shared.Types.{Address, Bytes, RaffleConfig, exceeds_internal_randomness_cap}
use tikka_contracts.Shared.Constants.{checkpoint_interval}
use tikka_contracts.Shared.Validate.{ConfigValidationError, bytes_eq}
use tikka_contracts.Shared.Builder.{from_config, with_protocol_fee_bp, with_treasury_address, build}
use tikka_contracts.Randomness.Quorum.{be_bytes}
use tikka_contracts.Instance.State.{Contract, Env, update}
use tikka_contracts.Instance.Helpers.{checked_u32, checked_u64, saturating_add_u32}
use tikka_contracts.Instance.Admin.Tokens.{wipe_storage}
use tikka_contracts.Instance.Init.{init}
use tikka_contracts.Instance.Calls.{empty_contract}
use tikka_contracts.Factory.State.{
  Factory, FactoryEnv, FactoryCall, StateCheckpoint, factory_address, not_authorized,
  invalid_parameters, creation_paused, rate_limit_exceeded, treasury_not_set,
  randomness_source_too_weak_for_prize, invalid_raffle_id,
}
use tikka_contracts.Factory.Roles.{
  require_auth, require_admin, require_factory_not_paused, invoke_contract,
}

-- `to_be_bytes` of a `u32`
abbrev be_bytes_u32 : ℕ → Bytes
be_bytes_u32 n = (n / 2 ^ 24 % 256) ∷ (n / 2 ^ 16 % 256) ∷ (n / 2 ^ 8 % 256) ∷ (n % 256) ∷ []

unfoldable pub maybe_create_checkpoint : FactoryEnv → ℕ → Factory → Factory
maybe_create_checkpoint env raffle_count s =
    if raffle_count == 0 || not (raffle_count % checkpoint_interval == 0)
    then s
    else (let index = raffle_count / checkpoint_interval in
        let input =
          be_bytes_u32 raffle_count
          ++ be_bytes_u32 env.host.sequence
          ++ be_bytes env.host.timestamp in
        let checkpoint : StateCheckpoint = record {
          index = index;
          raffle_count = raffle_count;
          ledger_timestamp = env.host.timestamp;
          aggregate_hash = env.host.sha256 input;
        } in
        record s {
          checkpoint = update s.checkpoint index (some checkpoint);
          latest_checkpoint_index = index;
        })

unfoldable pub compute_raffle_salt : FactoryEnv → Address → ℕ → Bytes
compute_raffle_salt env creator nonce = env.host.sha256 (env.nonce_xdr creator nonce)

-- A write to a map whose keys are byte strings.
abbrev pub update_bytes {ℓ} : {A : Type ℓ} → (Bytes → A) → Bytes → A → Bytes → A
update_bytes f k v j = if bytes_eq j k then v else f j

-- `deploy_v2`: the address under the salt, which must not be in use.
unfoldable pub deploy_raffle :
    FactoryEnv → Address → RaffleConfig → Factory → FactoryCall (Address × Factory)
deploy_raffle env creator config s = do
  wasm_hash ← ok_or s.instance_wasm_hash invalid_parameters
  let salt = env.host.sha256 (env.creation_xdr creator config.description)
  address ← or_trap (env.deploy wasm_hash salt)
  trap_unless (not (is_some (s.instances address)))
  ok (
    address,
    record s { instances = update s.instances address (some (empty_contract s.balances)) },
  )

abbrev index_category : Option Bytes → Address → (Bytes → List Address) → Bytes → List Address
index_category none address raffles = raffles
index_category (some category) address raffles =
    update_bytes raffles category (raffles category ++ address ∷ [])

-- The entries of a raffle that has been initialised.
unfoldable pub index_raffle : Address → Address → Option Bytes → Factory → Factory
index_raffle creator address category s = record s {
  raffle_by_id = update s.raffle_by_id s.next_raffle_id (some address);
  is_factory_raffle = update s.is_factory_raffle address true;
  next_raffle_id = saturating_add_u32 s.next_raffle_id 1;
  valid_raffle = update s.valid_raffle address true;
  creator_raffles = update s.creator_raffles creator (s.creator_raffles creator ++ address ∷ []);
  category_raffles = index_category category address s.category_raffles;
  raffle_count = saturating_add_u32 s.raffle_count 1;
}

unfoldable pub create_raffle_internal :
    FactoryEnv → Address → RaffleConfig → Factory → FactoryCall (Address × Factory)
unfolding deploy_raffle invoke_contract index_raffle maybe_create_checkpoint init
create_raffle_internal env creator config s = do
  admin ← ok_or s.admin not_authorized
  (address, deployed) ← deploy_raffle env creator config s
  initialised ←
      invoke_contract env address (λ host c. init host (factory_address env) admin creator config c)
        deployed
  let indexed = index_raffle creator address config.category initialised
  count ← or_trap (checked_u32 (indexed.total_raffles_created + 1))
  ok (address, maybe_create_checkpoint env count (record indexed { total_raffles_created = count }))

-- The delay between two raffles of a creator who is no partner.
unfoldable pub check_creation_rate : FactoryEnv → Address → Factory → FactoryCall Factory
check_creation_rate env creator s = if s.whitelisted_partner creator then ok s else (do
  unlock ← or_trap (checked_u64 (s.last_creation_time creator + s.min_creation_delay))
  reject_if (ltb env.host.timestamp unlock) rate_limit_exceeded
  ok (record s { last_creation_time = update s.last_creation_time creator env.host.timestamp }))

-- `map_err(|_| ContractError::InvalidParameters)`
abbrev pub map_err : Outcome ConfigValidationError RaffleConfig → FactoryCall RaffleConfig
map_err (ok c) = ok c
map_err (err e) = err invalid_parameters
map_err trap = trap

unfoldable pub create_raffle :
    FactoryEnv → Address → RaffleConfig → Factory → FactoryCall (Address × Factory)
unfolding require_factory_not_paused check_creation_rate from_config build
    exceeds_internal_randomness_cap create_raffle_internal
create_raffle env creator config s = do
  require_auth env creator
  require_factory_not_paused s
  reject_if s.creation_paused creation_paused
  timed ← check_creation_rate env creator s
  treasury ← ok_or timed.treasury treasury_not_set
  final_config ← map_err (
      build env.host.timestamp env.host.has_decimals (
        with_treasury_address (some treasury)
          (with_protocol_fee_bp timed.protocol_fee_bp (from_config config))))
  reject_if
      (exceeds_internal_randomness_cap final_config.randomness_source final_config.prize_amount)
      randomness_source_too_weak_for_prize
  create_raffle_internal env creator final_config timed

-- `kept`: the entries other than the raffle.
abbrev pub without : Address → List Address → List Address
without address [] = []
without address (a ∷ rest) = if a == address then without address rest else a ∷ without address rest

abbrev prune_category : Option Bytes → Address → (Bytes → List Address) → Bytes → List Address
prune_category none address raffles = raffles
prune_category (some category) address raffles =
    update_bytes raffles category (without address (raffles category))

-- A list that is left empty is removed, and reads as empty.
unfoldable pub clean_old_raffle : FactoryEnv → ℕ → Factory → FactoryCall Factory
unfolding require_admin invoke_contract wipe_storage
clean_old_raffle env raffle_id s = do
  admin ← require_admin env s
  address ← ok_or (s.raffle_by_id raffle_id) invalid_raffle_id
  creator ← ok_or (s.raffle_creator raffle_id) invalid_raffle_id
  let category = s.raffle_category raffle_id
  wiped ← invoke_contract env address wipe_storage s
  ok (record wiped {
    raffle_by_id = update wiped.raffle_by_id raffle_id none;
    raffle_creator = update wiped.raffle_creator raffle_id none;
    raffle_category = update wiped.raffle_category raffle_id none;
    creator_raffles =
        update wiped.creator_raffles creator (without address (wiped.creator_raffles creator));
    category_raffles = prune_category category address wiped.category_raffles;
    raffle_count = wiped.raffle_count - 1;
  })
