-- ===== src/Shared/Types.antt =====
-- The data types of contracts/raffle-shared/src/lib.rs, and its functions on them. An address is a
-- number, and a `String`, a `Bytes` or a `BytesN` is the list of its bytes.
use tikka_contracts.Prelude.{
  ℕ, zero, suc, ◌+◌, ◌*◌, [], ◌∷◌, Bool, true, false, ◌&&◌, Option, none, some, List, ltb, ◌==◌,
  if◌then◌else◌,
}
use tikka_contracts.Prelude.Int.{ℤ, ltb_ℤ}
use tikka_contracts.Shared.Constants.{
  default_claim_lockup_seconds, default_swap_deadline_seconds, default_claim_expiry_seconds,
  default_page_limit, max_page_limit, max_internal_randomness_prize_amount,
}

abbrev pub Address : Type 0
Address = ℕ

abbrev pub Bytes : Type 0
Bytes = List ℕ

pub data CancelReason : Type 0 where
  creator_cancelled admin_cancelled oracle_timeout min_tickets_not_met : CancelReason

pub data RandomnessType : Type 0 where
  prng vrf fallback : RandomnessType

pub record QuorumConfig : Type 0 where
  pub k : ℕ
  pub oracles : List Address

pub data RandomnessSource : Type 0 where
  internal external commit_reveal : RandomnessSource
  quorum : QuorumConfig → RandomnessSource

-- `== RandomnessSource::External` and the like
abbrev pub is_internal : RandomnessSource → Bool
is_internal internal = true
is_internal _ = false

abbrev pub is_external : RandomnessSource → Bool
is_external external = true
is_external _ = false

abbrev pub is_commit_reveal : RandomnessSource → Bool
is_commit_reveal commit_reveal = true
is_commit_reveal _ = false

pub record TicketBundle : Type 0 where
  pub quantity : ℕ
  pub price_per_ticket : ℤ

pub record RaffleConfig : Type 0 where
  pub description : Bytes
  pub end_time : ℕ
  pub no_deadline : Bool
  pub max_tickets : ℕ
  pub max_tickets_per_tx : ℕ
  pub max_tickets_per_address : ℕ
  pub min_tickets : ℕ
  pub allow_multiple : Bool
  pub ticket_price : ℤ
  pub payment_token : Address
  pub prize_amount : ℤ
  pub prizes : List ℕ
  pub randomness_source : RandomnessSource
  pub oracle_address : Option Address
  pub protocol_fee_bp : ℕ
  pub treasury_address : Option Address
  pub swap_router : Option Address
  pub tikka_token : Option Address
  pub metadata_hash : Bytes
  pub claim_lockup_seconds : Option ℕ
  pub claim_expiry_seconds : Option ℕ
  pub swap_deadline_seconds : Option ℕ
  pub early_bird_ticket_percentage : ℕ
  pub early_bird_discount_bp : ℕ
  pub category : Option Bytes
  pub unique_winners : Bool
  pub bundles : List TicketBundle
  pub prize_token : Option Address
  pub nft_contract : Option Address

abbrev pub or_default : Option ℕ → ℕ → Option ℕ
or_default none d = some d
or_default (some n) d = some n

unfoldable pub resolve_defaults : RaffleConfig → RaffleConfig
resolve_defaults c = record c {
  claim_lockup_seconds = or_default c.claim_lockup_seconds default_claim_lockup_seconds;
  swap_deadline_seconds = or_default c.swap_deadline_seconds default_swap_deadline_seconds;
  claim_expiry_seconds = or_default c.claim_expiry_seconds default_claim_expiry_seconds;
}

pub record BuyQuote : Type 0 where
  pub gross : ℤ
  pub discount : ℤ
  pub fee : ℤ
  pub net_to_pay : ℤ
  pub effective_ticket_price : ℤ

pub record Ticket : Type 0 where
  pub id : ℕ
  pub owner : Address
  pub purchase_time : ℕ
  pub ticket_number : ℕ
  pub payer : Address
  pub price_paid : ℤ

unfoldable pub effective_limit : ℕ → ℕ
effective_limit requested =
    if requested == 0
    then default_page_limit
    else if ltb max_page_limit requested
    then max_page_limit
    else requested

unfoldable pub exceeds_internal_randomness_cap : RandomnessSource → ℤ → Bool
exceeds_internal_randomness_cap source prize_amount =
    is_internal source && ltb_ℤ max_internal_randomness_prize_amount prize_amount

-- `u64::from_be_bytes` of the first eight bytes
unfoldable pub be_u64 : ℕ → ℕ → Bytes → ℕ
be_u64 zero acc bytes = acc
be_u64 (suc n) acc [] = acc
be_u64 (suc n) acc (b ∷ bytes) = be_u64 n (acc * 256 + b) bytes
