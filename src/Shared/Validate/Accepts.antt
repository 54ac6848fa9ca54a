-- ===== src/Shared/Validate/Accepts.antt =====
-- Exactly which configurations `validate_config` accepts, and how it completes them.
use tikka_contracts.Prelude.{
  ℕ, ◌+◌, ◌^◌, ◌≤◌, ◌<◌, ◌≡◌, ltb, if◌then◌else◌, is_some, All, ◌≢◌, refl, ◌↔◌, ◌⊎◌, Bool, true,
  false, Option, none, some, List, [], ◌∷◌, length, arith, or_else,
}
use tikka_contracts.Prelude.Int.{◌≤ℤ◌}
use tikka_contracts.Prelude.Outcome.{ok, err, ◌>>=◌}
use tikka_contracts.Shared.Types.{
  Address, Bytes, is_external, RaffleConfig, TicketBundle, RandomnessSource, resolve_defaults,
}
use tikka_contracts.Shared.Constants.{min_ticket_price, max_prize_amount}
use tikka_contracts.Shared.Validate.{
  invalid_parameters, validate_category, validate_schedule, validate_supply, validate_pricing,
  validate_parties, validate_windows, validate_config, check_bundles, sum_prizes, check_oracle,
  validate_category, bytes_eq, zero_hash, with_address_cap, is_category_byte, all_category_bytes,
}

-- The sum of the prizes' basis points.
abbrev pub sum : List ℕ → ℕ
sum [] = 0
sum (x ∷ xs) = x + sum xs

-- The checked sum is the sum where it fits a `u32`, and an error otherwise.
sum_prizes_lem :
    (total : ℕ) (bps : List ℕ)
    → total < 2 ^ 32
    → sum_prizes total bps
      ≡ (if ltb (total + sum bps) (2 ^ 32) then ok (total + sum bps) else err invalid_parameters)
unfolding sum_prizes ◌>>=◌
sum_prizes_lem total [] h = ground arith
sum_prizes_lem total (bp ∷ bps) h = ground (arith, sum_prizes_lem (total + bp) bps)

-- Bundles that grow in size and never in price.
abbrev pub IsLadder : Option TicketBundle → List TicketBundle → Type 0
IsLadder previous [] = Unit
IsLadder none (b ∷ bs) =
    (0 < b.quantity) × (min_ticket_price ≤ℤ b.price_per_ticket) × IsLadder (some b) bs
IsLadder (some a) (b ∷ bs) =
    (a.quantity < b.quantity)
    × (min_ticket_price ≤ℤ b.price_per_ticket)
    × (b.price_per_ticket ≤ℤ a.price_per_ticket)
    × IsLadder (some b) bs

pub record IsPriced (c : RaffleConfig) : Type 0 where
  pub priced : min_ticket_price ≤ℤ c.ticket_price
  pub covered : c.ticket_price ≤ℤ c.prize_amount
  pub payable : c.prize_amount ≤ℤ max_prize_amount
  pub some_prizes : 0 < length c.prizes
  pub few_prizes : length c.prizes ≤ 100
  pub whole : sum c.prizes ≡ 10_000
  pub fee : c.protocol_fee_bp ≤ 10_000
  pub treasury : 0 < c.protocol_fee_bp → is_some c.treasury_address ≡ true
  pub few_bundles : length c.bundles ≤ 16
  pub ladder : IsLadder none c.bundles

pub record IsSupplied (c : RaffleConfig) : Type 0 where
  pub some_tickets : 0 < c.max_tickets
  pub few_tickets : c.max_tickets ≤ 100_000
  pub range : c.min_tickets ≤ c.max_tickets
  pub some_per_tx : 0 < c.max_tickets_per_tx
  pub few_per_tx : c.max_tickets_per_tx ≤ c.max_tickets
  pub per_address : c.max_tickets_per_address ≤ c.max_tickets

pub record IsScheduled (now : ℕ) (c : RaffleConfig) : Type 0 where
  pub described : length c.description ≤ 1_000
  pub deadline : c.no_deadline ≡ false → now < c.end_time
  pub open_ended : c.no_deadline ≡ true → c.end_time ≡ 0

-- The windows as they are stored: a lockup of at most seven days, and an expiry of thirty or more
-- that lies behind it.
pub record IsWindowed (c : RaffleConfig) : Type 0 where
  pub lockup : or_else c.claim_lockup_seconds 3_600 ≤ 604_800
  pub expiry : 2_592_000 ≤ or_else c.claim_expiry_seconds 2_592_000
  pub expiry_after : or_else c.claim_lockup_seconds 3_600 < or_else c.claim_expiry_seconds 2_592_000
  pub swap : or_else c.swap_deadline_seconds 300 ≤ 3_600

ladder_lem :
    (p : Option TicketBundle) (bs : List TicketBundle)
    → (check_bundles p bs ≡ ok tt) ↔ IsLadder p bs
unfolding check_bundles ◌>>=◌
ladder_lem none [] = (λ h. tt, λ h. refl)
ladder_lem (some a) [] = (λ h. tt, λ h. refl)
ladder_lem none (b ∷ bs) =
    let ih = ladder_lem (some b) bs in (λ h. ground (arith, ih), λ h. ground (arith, ih))
ladder_lem (some a) (b ∷ bs) =
    let ih = ladder_lem (some b) bs in (λ h. ground (arith, ih), λ h. ground (arith, ih))

schedule_lem : (now : ℕ) (c : RaffleConfig) → (validate_schedule now c ≡ ok tt) ↔ IsScheduled now c
unfolding validate_schedule ◌>>=◌
schedule_lem now c = (λ h. ground arith, λ h. ground arith)

supply_lem : (c : RaffleConfig) → (validate_supply c ≡ ok tt) ↔ IsSupplied c
unfolding validate_supply ◌>>=◌
supply_lem c = (λ h. ground arith, λ h. ground arith)

pricing_lem : (c : RaffleConfig) → (validate_pricing c ≡ ok tt) ↔ IsPriced c
unfolding validate_pricing ◌>>=◌
pricing_lem c = (
  (λ h. ground (arith, sum_prizes_lem 0 c.prizes, ladder_lem none c.bundles)),
  (λ h. ground (arith, sum_prizes_lem 0 c.prizes, ladder_lem none c.bundles)),
)

windows_lem : (c : RaffleConfig) → (validate_windows c ≡ ok tt) ↔ IsWindowed c
unfolding validate_windows ◌>>=◌
windows_lem c = (λ h. ground arith, λ h. ground arith)

bytes_eq_iff : (xs ys : Bytes) → (bytes_eq xs ys ≡ true) ↔ (xs ≡ ys)
unfolding bytes_eq
bytes_eq_iff [] [] = (λ h. refl, λ h. refl)
bytes_eq_iff [] (y ∷ ys) = (λ h. cc, λ h. cc)
bytes_eq_iff (x ∷ xs) [] = (λ h. cc, λ h. cc)
bytes_eq_iff (x ∷ xs) (y ∷ ys) =
    (λ h. ground (arith, bytes_eq_iff xs ys), λ h. ground (arith, bytes_eq_iff xs ys))

-- External randomness needs an oracle that is not the raffle itself; other modes admit none.
abbrev pub OracleFits : Bool → Option Address → Option Address → Type 0
OracleFits true self none = ⊥
OracleFits true none (some a) = Unit
OracleFits true (some b) (some a) = a ≢ b
OracleFits false self none = Unit
OracleFits false self (some a) = ⊥

-- A digit, a letter or a hyphen.
abbrev pub IsCategoryByte : ℕ → Type 0
IsCategoryByte b = ((48 ≤ b) × (b ≤ 57)) ⊎ ((65 ≤ b) × (b ≤ 90)) ⊎ ((97 ≤ b) × (b ≤ 122)) ⊎ (b ≡ 45)

abbrev pub CategoryFits : Option Bytes → Type 0
CategoryFits none = Unit
CategoryFits (some category) =
    (0 < length category) × (length category ≤ 32) × All IsCategoryByte category

pub record HasParties (has_decimals : Address → Bool) (self : Option Address) (c : RaffleConfig)
    : Type 0 where
  pub oracle : OracleFits (is_external c.randomness_source) self c.oracle_address
  pub hashed : c.metadata_hash ≢ zero_hash
  pub category : CategoryFits c.category
  pub token : has_decimals c.payment_token ≡ true

oracle_lem :
    (self : Option Address) (source : RandomnessSource) (oracle : Option Address)
    → (check_oracle self source oracle ≡ ok tt) ↔ OracleFits (is_external source) self oracle
unfolding check_oracle ◌>>=◌
oracle_lem none source oracle = (λ h. ground arith, λ h. ground arith)
oracle_lem (some b) source oracle = (λ h. ground arith, λ h. ground arith)

category_byte_lem : (b : ℕ) → (is_category_byte b ≡ true) ↔ IsCategoryByte b
unfolding is_category_byte
category_byte_lem b = (λ h. ground arith, λ h. ground arith)

category_bytes_lem : (bs : Bytes) → (all_category_bytes bs ≡ true) ↔ All IsCategoryByte bs
unfolding all_category_bytes
category_bytes_lem [] = (λ h. tt, λ h. refl)
category_bytes_lem (b ∷ bs) =
    let ih = category_bytes_lem bs in (λ h. ground (arith, ih), λ h. ground (arith, ih))

category_lem :
    (category : Option Bytes) → (validate_category category ≡ ok tt) ↔ CategoryFits category
unfolding validate_category ◌>>=◌
category_lem none = (λ h. tt, λ h. refl)
category_lem (some bs) =
    let all = category_bytes_lem bs in (λ h. ground (arith, all), λ h. ground (arith, all))

pub windows_resolved :
    (c : RaffleConfig) → IsWindowed (resolve_defaults (with_address_cap c)) ↔ IsWindowed c
unfolding resolve_defaults
windows_resolved c = (λ h. ground arith, λ h. ground arith)

parties_lem :
    (has_decimals : Address → Bool) (self : Option Address) (c : RaffleConfig)
    → (validate_parties has_decimals self c ≡ ok tt) ↔ HasParties has_decimals self c
unfolding validate_parties ◌>>=◌
parties_lem has_decimals self c =
    let o = oracle_lem self c.randomness_source c.oracle_address in
    let e = bytes_eq_iff c.metadata_hash zero_hash in
    let k = category_lem c.category in (λ h. ground (arith, o, e, k), λ h. ground (arith, o, e, k))

-- What `validate_config` asks of a configuration.
pub record IsAcceptable (now : ℕ) (has_decimals : Address → Bool) (self : Option Address)
    (c : RaffleConfig) : Type 0 where
  pub schedule : IsScheduled now c
  pub supply : IsSupplied (with_address_cap c)
  pub pricing : IsPriced c
  pub parties : HasParties has_decimals self c
  pub windows : IsWindowed c

-- `validate_config` accepts exactly the configurations of `IsAcceptable`, and then returns the
-- configuration with the one-ticket cap and the default windows filled in.
pub validate_config_iff :
    (now : ℕ) (has_decimals : Address → Bool) (self : Option Address) (c d : RaffleConfig)
    → (validate_config now has_decimals c self ≡ ok d)
      ↔ (IsAcceptable now has_decimals self c × (resolve_defaults (with_address_cap c) ≡ d))
unfolding validate_config ◌>>=◌
validate_config_iff now has_decimals self c d =
    let s = schedule_lem now c in
    let u = supply_lem (with_address_cap c) in
    let p = pricing_lem c in
    let q = parties_lem has_decimals self c in
    let w = windows_lem (resolve_defaults (with_address_cap c)) in
    let r = windows_resolved c in
    (λ h. ground (arith, s, u, p, q, w, r), λ h. ground (arith, s, u, p, q, w, r))
