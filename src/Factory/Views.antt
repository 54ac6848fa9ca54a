-- ===== src/Factory/Views.antt =====
-- contracts/raffle-factory/src/views.rs: the read-only queries. lib.rs repeats the three lists of
-- raffles; its `get_raffles_page` reads names that it does not bind, so this is the one of views.rs.
pub mod Pages
use tikka_contracts.Prelude.{
  ℕ, zero, suc, ◌+◌, ◌-◌, ◌^◌, min, Bool, true, false, Option, none, some, List, [], ◌∷◌, ltb, leb,
  ◌==◌, if◌then◌else◌, length, get_elem?,
}
use tikka_contracts.Shared.Types.{Address, Bytes, effective_limit}
use tikka_contracts.Instance.Helpers.{saturating_add_u32}
use tikka_contracts.Factory.State.{Factory, FactoryEnv}
use tikka_contracts.Factory.Registry.{compute_raffle_salt}

pub record PaginationParams : Type 0 where
  pub limit : ℕ
  pub offset : ℕ

pub record PageResultRaffles : Type 0 where
  pub items : List Address
  pub total : ℕ
  pub has_more : Bool

abbrev pub push : Option Address → List Address → List Address
push none items = items
push (some a) items = a ∷ items

-- `for i in offset..end`, with `count` positions left; a position without an entry is skipped
unfoldable pub collect : (ℕ → Option Address) → ℕ → ℕ → List Address
collect entry i zero = []
collect entry i (suc count) = push (entry i) (collect entry (i + 1) count)

unfoldable pub paginate_raffles : List Address → PaginationParams → PageResultRaffles
unfolding collect effective_limit
paginate_raffles source params =
    let total = length source in
    if leb total params.offset
    then record { items = []; total = total; has_more = false }
    else (let end = min (saturating_add_u32 params.offset (effective_limit params.limit)) total in
        record {
          items = collect (get_elem? source) params.offset (end - params.offset);
          total = total;
          has_more = ltb end total;
        })

unfoldable pub get_raffles_page : PaginationParams → Factory → PageResultRaffles
unfolding collect effective_limit
get_raffles_page params s =
    if leb s.next_raffle_id params.offset
    then record { items = []; total = s.raffle_count; has_more = false }
    else (let end =
          min (saturating_add_u32 params.offset (effective_limit params.limit)) s.next_raffle_id in
        record {
          items = collect s.raffle_by_id params.offset (end - params.offset);
          total = s.raffle_count;
          has_more = ltb end s.next_raffle_id;
        })

unfoldable pub get_raffles_by_creator : Address → PaginationParams → Factory → PageResultRaffles
unfolding paginate_raffles
get_raffles_by_creator creator params s = paginate_raffles (s.creator_raffles creator) params

unfoldable pub get_raffles_by_category : Bytes → PaginationParams → Factory → PageResultRaffles
unfolding paginate_raffles
get_raffles_by_category category params s = paginate_raffles (s.category_raffles category) params

-- `get_all_partners` of lib.rs
unfoldable pub get_all_partners : PaginationParams → Factory → List Address
unfolding paginate_raffles
get_all_partners params s = (paginate_raffles s.partners_list params).items

pub record ProtocolStats : Type 0 where
  pub total_raffles_created : ℕ
  pub protocol_fee_bp : ℕ
  pub paused : Bool
  pub total_unique_participants : ℕ

unfoldable pub get_protocol_stats : Factory → ProtocolStats
get_protocol_stats s = record {
  total_raffles_created = s.total_raffles_created;
  protocol_fee_bp = s.protocol_fee_bp;
  paused = s.paused;
  total_unique_participants = s.total_unique_participants;
}

unfoldable pub predict_raffle_address : FactoryEnv → Address → ℕ → Address
unfolding compute_raffle_salt
predict_raffle_address env creator nonce =
    env.deployed_address (compute_raffle_salt env creator nonce)
