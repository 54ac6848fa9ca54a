-- ===== src/Factory/Registry/Fresh.antt =====
-- The raffle that a configuration asks for, and what `init` of the raffle contract makes of it.
use tikka_contracts.Prelude.{
  false, [], not, ◌&&◌, ◌==◌, if◌then◌else◌, or_else, ℕ, ◌≡◌, refl, Option, none, some,
}
use tikka_contracts.Shared.Types.{Address, RaffleConfig, or_default, resolve_defaults}
use tikka_contracts.Shared.Status.{pending_prize}
use tikka_contracts.Shared.Validate.{with_address_cap}
use tikka_contracts.Instance.State.{Raffle, Contract}
use tikka_contracts.Instance.Init.{new_raffle}

-- The raffle that a configuration asks for: its terms, one ticket for each address where the configuration
-- has no other cap and does not allow several, an hour of lockup, thirty days until a claim expires and five
-- minutes for a swap where it names no other, and nothing sold, paid in, drawn or paused.
abbrev pub fresh_raffle : Address → ℕ → Option Address → RaffleConfig → Raffle
fresh_raffle owner fee recipient c = record {
  creator = owner;
  description = c.description;
  end_time = c.end_time;
  no_deadline = c.no_deadline;
  max_tickets = c.max_tickets;
  max_tickets_per_tx = c.max_tickets_per_tx;
  max_tickets_per_address =
      if c.max_tickets_per_address == 0 && not c.allow_multiple
      then 1
      else c.max_tickets_per_address;
  min_tickets = c.min_tickets;
  allow_multiple = c.allow_multiple;
  ticket_price = c.ticket_price;
  payment_token = c.payment_token;
  prize_token = c.payment_token;
  prize_amount = c.prize_amount;
  prizes = c.prizes;
  tickets_sold = 0;
  status = pending_prize;
  prize_deposited = false;
  winners = [];
  randomness_source = c.randomness_source;
  oracle_address = c.oracle_address;
  protocol_fee_bp = fee;
  treasury_address = recipient;
  swap_router = c.swap_router;
  tikka_token = c.tikka_token;
  finalized_at = none;
  claim_lockup_seconds = or_else c.claim_lockup_seconds 3_600;
  claim_expiry_seconds = or_else c.claim_expiry_seconds 2_592_000;
  swap_deadline_seconds = or_else c.swap_deadline_seconds 300;
  ticket_sales_paused = false;
  early_bird_ticket_percentage = c.early_bird_ticket_percentage;
  early_bird_discount_bp = c.early_bird_discount_bp;
  metadata_hash = c.metadata_hash;
  unique_winners = c.unique_winners;
  bundles = c.bundles;
  nft_contract = c.nft_contract;
}

-- A contract that holds the raffle of a configuration.
pub record Initialises (deployer administrator owner : Address) (c : RaffleConfig) (s : Contract)
    : Type 0 where
  pub stored : s.raffle ≡ some (fresh_raffle owner c.protocol_fee_bp c.treasury_address c)
  pub factory : s.factory ≡ some deployer
  pub admin : s.admin ≡ some administrator

-- Defaults that are filled in twice are those that are filled in once.
pub default_twice : (o : Option ℕ) (n : ℕ) → or_else (or_default o n) n ≡ or_else o n
default_twice none n = refl
default_twice (some m) n = refl

pub new_raffle-eq-fresh_raffle :
    (creator : Address) (c : RaffleConfig)
    → new_raffle creator (with_address_cap (resolve_defaults c))
      ≡ fresh_raffle creator c.protocol_fee_bp c.treasury_address c
unfolding resolve_defaults
new_raffle-eq-fresh_raffle creator c = λ i.
    record (fresh_raffle creator c.protocol_fee_bp c.treasury_address c) {
      claim_lockup_seconds = default_twice c.claim_lockup_seconds 3_600 i;
      claim_expiry_seconds = default_twice c.claim_expiry_seconds 2_592_000 i;
      swap_deadline_seconds = default_twice c.swap_deadline_seconds 300 i;
    }
