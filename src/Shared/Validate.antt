-- ===== src/Shared/Validate.antt =====
-- `validate_config` and `validate_category` of contracts/raffle-shared/src/config_builder.rs.
pub mod Accepts
use tikka_contracts.Prelude.{
  ℕ, zero, suc, ◌+◌, ◌^◌, Bool, true, false, not, ◌&&◌, ◌||◌, Option, none, some, List, [], ◌∷◌,
  ltb, leb, ◌==◌, if◌then◌else◌, length, or_else, is_some, replicate,
}
use tikka_contracts.Prelude.Int.{ℤ, ltb_ℤ}
use tikka_contracts.Prelude.Outcome.{Outcome, ok, err, ◌>>=◌, ◌>>◌, reject_if}
use tikka_contracts.Shared.Constants.{
  max_description_length, max_tickets_limit, max_prizes, max_category_length, min_ticket_price,
  max_prize_amount, default_claim_lockup_seconds, max_claim_lockup_seconds,
  min_claim_expiry_seconds, default_claim_expiry_seconds, default_swap_deadline_seconds,
  max_swap_deadline_seconds,
}
use tikka_contracts.Shared.Types.{
  Address, Bytes, RandomnessSource, TicketBundle, RaffleConfig, is_external, resolve_defaults,
}

pub data ConfigValidationError : Type 0 where
  invalid_parameters invalid_ticket_range invalid_end_time too_many_prizes invalid_token_address :
      ConfigValidationError

abbrev pub Check : Type 0
Check = Outcome ConfigValidationError (Unit {0})

-- Equality of two byte strings.
unfoldable pub bytes_eq : Bytes → Bytes → Bool
bytes_eq [] [] = true
bytes_eq (a ∷ xs) (b ∷ ys) = a == b && bytes_eq xs ys
bytes_eq _ _ = false

abbrev pub zero_hash : Bytes
zero_hash = replicate 32 0

-- `instance_address == Some(address)`
abbrev pub is_address : Option Address → Address → Bool
is_address none a = false
is_address (some b) a = a == b

-- The body of the loop over the bundles; `previous` is none at index 0.
unfoldable pub check_bundle : Option TicketBundle → TicketBundle → Check
check_bundle none bundle =
    reject_if (bundle.quantity == 0 || ltb_ℤ bundle.price_per_ticket min_ticket_price)
      invalid_parameters
check_bundle (some previous) bundle = do
  reject_if (bundle.quantity == 0 || ltb_ℤ bundle.price_per_ticket min_ticket_price)
      invalid_parameters
  reject_if
      (leb bundle.quantity previous.quantity
        || ltb_ℤ previous.price_per_ticket bundle.price_per_ticket)
      invalid_parameters

unfoldable pub check_bundles : Option TicketBundle → List TicketBundle → Check
unfolding check_bundle
check_bundles previous [] = ok tt
check_bundles previous (bundle ∷ bundles) = do
  check_bundle previous bundle
  check_bundles (some bundle) bundles

-- `prize_total.checked_add(basis_points)` over the prizes, as a `u32`
unfoldable pub sum_prizes : ℕ → List ℕ → Outcome ConfigValidationError ℕ
sum_prizes total [] = ok total
sum_prizes total (bp ∷ bps) =
    let rest = sum_prizes (total + bp) bps in
    if ltb (total + bp) (2 ^ 32) then rest else err invalid_parameters

unfoldable pub check_oracle : Option Address → RandomnessSource → Option Address → Check
check_oracle instance_address source oracle_address =
    if is_external source
    then elim oracle_address [
      | none ↦ err invalid_parameters
      | some address ↦ reject_if (is_address instance_address address) invalid_parameters
    ]
    else reject_if (is_some oracle_address) invalid_parameters

-- `is_ascii_alphanumeric`, or a hyphen
unfoldable pub is_category_byte : ℕ → Bool
is_category_byte b =
    leb 48 b && leb b 57 || leb 65 b && leb b 90 || leb 97 b && leb b 122 || b == 45

unfoldable pub all_category_bytes : Bytes → Bool
unfolding is_category_byte
all_category_bytes [] = true
all_category_bytes (b ∷ bs) = is_category_byte b && all_category_bytes bs

unfoldable pub validate_category : Option Bytes → Check
unfolding all_category_bytes
validate_category none = ok tt
validate_category (some category) = do
  reject_if (length category == 0 || ltb max_category_length (length category)) invalid_parameters
  reject_if (not (all_category_bytes category)) invalid_parameters

-- The one-ticket cap that `allow_multiple = false` stands for.
abbrev pub with_address_cap : RaffleConfig → RaffleConfig
with_address_cap c = record c {
  max_tickets_per_address =
      if c.max_tickets_per_address == 0 && not c.allow_multiple
      then 1
      else c.max_tickets_per_address;
}

-- `validate_config` in five parts, which run in the order of the source.
unfoldable pub validate_schedule : ℕ → RaffleConfig → Check
validate_schedule now config = do
  reject_if (ltb max_description_length (length config.description)) invalid_parameters
  reject_if (config.no_deadline && not (config.end_time == 0)) invalid_parameters
  reject_if (not config.no_deadline && leb config.end_time now) invalid_parameters
  reject_if (not (config.end_time == 0) && leb config.end_time now) invalid_end_time

-- The address cap is set just before its check; the checks before it do not read it.
unfoldable pub validate_supply : RaffleConfig → Check
validate_supply capped = do
  reject_if (capped.max_tickets == 0 || ltb max_tickets_limit capped.max_tickets) invalid_parameters
  reject_if (ltb capped.max_tickets capped.min_tickets) invalid_ticket_range
  reject_if (capped.max_tickets_per_tx == 0 || ltb capped.max_tickets capped.max_tickets_per_tx)
      invalid_parameters
  reject_if (ltb capped.max_tickets capped.max_tickets_per_address) invalid_parameters

unfoldable pub validate_pricing : RaffleConfig → Check
validate_pricing config = do
  reject_if (ltb_ℤ config.ticket_price min_ticket_price) invalid_parameters
  reject_if (ltb 16 (length config.bundles)) invalid_parameters
  check_bundles none config.bundles
  reject_if
      (ltb_ℤ config.prize_amount config.ticket_price || ltb_ℤ max_prize_amount config.prize_amount)
      invalid_parameters
  reject_if (length config.prizes == 0) invalid_parameters
  reject_if (ltb max_prizes (length config.prizes)) too_many_prizes
  prize_total ← sum_prizes 0 config.prizes
  reject_if (not (prize_total == 10_000)) invalid_parameters
  reject_if
      (ltb 10_000 config.protocol_fee_bp
        || ltb 0 config.protocol_fee_bp && not (is_some config.treasury_address))
      invalid_parameters

unfoldable pub validate_parties : (Address → Bool) → Option Address → RaffleConfig → Check
validate_parties has_decimals instance_address config = do
  check_oracle instance_address config.randomness_source config.oracle_address
  reject_if (bytes_eq config.metadata_hash zero_hash) invalid_parameters
  validate_category config.category
  reject_if (not (has_decimals config.payment_token)) invalid_token_address

unfoldable pub validate_windows : RaffleConfig → Check
validate_windows resolved = do
  let claim_lockup = or_else resolved.claim_lockup_seconds default_claim_lockup_seconds
  let claim_expiry = or_else resolved.claim_expiry_seconds default_claim_expiry_seconds
  let swap_deadline = or_else resolved.swap_deadline_seconds default_swap_deadline_seconds
  reject_if
      (ltb max_claim_lockup_seconds claim_lockup
        || ltb claim_expiry min_claim_expiry_seconds
        || leb claim_expiry claim_lockup
        || ltb max_swap_deadline_seconds swap_deadline)
      invalid_parameters

-- `now` is the ledger's time, and `has_decimals` says for which addresses `try_decimals` succeeds.
-- The configuration comes back as the source leaves it behind its `&mut`.
unfoldable pub validate_config :
    ℕ
    → (Address → Bool)
    → RaffleConfig
    → Option Address
    → Outcome ConfigValidationError RaffleConfig
validate_config now has_decimals config instance_address = do
  let capped = with_address_cap config
  validate_schedule now config
  validate_supply capped
  validate_pricing config
  validate_parties has_decimals instance_address config
  let resolved = resolve_defaults capped
  validate_windows resolved
  ok resolved
