-- ===== src/Factory/Tracking.antt =====
-- What contracts/raffle-factory/src/lib.rs records for its raffles and about their creators: volumes,
-- participants, the leaderboards, the partners and the profiles.
pub mod Board
pub mod Once
pub mod Top
pub mod Partners
use tikka_contracts.Prelude.{
  ℕ, zero, suc, ◌+◌, ◌-◌, Bool, true, false, not, ◌&&◌, ◌||◌, Option, none, some, List, [], ◌∷◌,
  ◌++◌, ltb, leb, ◌==◌, if◌then◌else◌, length, get_elem?, set, or_else,
}
use tikka_contracts.Prelude.Int.{ℤ, pos, ltb_ℤ, checked_add}
use tikka_contracts.Prelude.Outcome.{Outcome, ok, err, ◌>>=◌, ◌>>◌, reject_if, ok_or, or_trap}
use tikka_contracts.Shared.Types.{Address, Bytes}
use tikka_contracts.Shared.Constants.{max_description_length}
use tikka_contracts.Instance.State.{update}
use tikka_contracts.Instance.Helpers.{checked_u32}
use tikka_contracts.Factory.State.{
  Factory, FactoryEnv, FactoryCall, Leaderboard, CreatorProfile, PartnerStats, arithmetic_overflow,
  not_authorized, invalid_parameters,
}
use tikka_contracts.Factory.Roles.{require_auth, require_admin, require_factory_raffle}
use tikka_contracts.Factory.Registry.{without}

unfoldable pub record_volume : FactoryEnv → Address → ℤ → Factory → FactoryCall Factory
unfolding require_factory_raffle
record_volume env asset amount s = do
  require_factory_raffle env s
  total_volume ← ok_or (checked_add (s.total_volume_per_asset asset) amount) arithmetic_overflow
  ok (record s { total_volume_per_asset = update s.total_volume_per_asset asset total_volume })

unfoldable pub track_participant : FactoryEnv → Address → Factory → FactoryCall Factory
unfolding require_factory_raffle
track_participant env participant s = do
  require_factory_raffle env s
  require_auth env participant
  if s.unique_participant participant then ok s else (do
    count ← or_trap (checked_u32 (s.total_unique_participants + 1))
    ok (record s {
      unique_participant = update s.unique_participant participant true;
      total_unique_participants = count;
    }))

abbrev pub leaderboard_cap : ℕ
leaderboard_cap = 10

-- `next`, as the loop over the old entries leaves it
abbrev pub drop_entry : Address → Leaderboard → Leaderboard
drop_entry raffle [] = []
drop_entry raffle (entry ∷ board) =
    if entry.0 == raffle then drop_entry raffle board else entry ∷ drop_entry raffle board

-- The inner loop over j, from the list behind position i: whatever is larger than the entry at i changes
-- places with it. The result is the entry that stays at i, and the list behind it.
unfoldable pub select_largest : Address × ℤ → Leaderboard → (Address × ℤ) × Leaderboard
select_largest left [] = (left, [])
select_largest left (right ∷ board) =
    let swapped = ltb_ℤ left.1 right.1 in
    let (best, rest) = select_largest (if swapped then right else left) board in
    (best, (if swapped then left else right) ∷ rest)

-- The outer loop over i, with `count` entries left.
unfoldable pub sort_board : ℕ → Leaderboard → Leaderboard
unfolding select_largest
sort_board zero board = board
sort_board (suc count) [] = []
sort_board (suc count) (left ∷ board) =
    let (best, rest) = select_largest left board in best ∷ sort_board count rest

-- `while next.len() > LEADERBOARD_CAP { next.pop_back() }`
abbrev pub take_upto : ℕ → Leaderboard → Leaderboard
take_upto zero board = []
take_upto (suc n) [] = []
take_upto (suc n) (entry ∷ board) = entry ∷ take_upto n board

unfoldable pub upsert_leaderboard : Address → ℤ → Leaderboard → Leaderboard
unfolding sort_board
upsert_leaderboard raffle metric board =
    let next = drop_entry raffle board ++ (raffle, metric) ∷ [] in
    take_upto leaderboard_cap (sort_board (length next) next)

unfoldable pub record_leaderboard_entry :
    FactoryEnv → Address → ℤ → ℤ → ℤ → Factory → FactoryCall Factory
unfolding require_factory_raffle upsert_leaderboard
record_leaderboard_entry env raffle_address tickets_sold prize_amount total_volume s = do
  require_factory_raffle env s
  require_auth env raffle_address
  reject_if (not (s.valid_raffle raffle_address)) not_authorized
  ok (record s {
    top_by_tickets = upsert_leaderboard raffle_address tickets_sold s.top_by_tickets;
    top_by_prize = upsert_leaderboard raffle_address prize_amount s.top_by_prize;
    top_by_volume = upsert_leaderboard raffle_address total_volume s.top_by_volume;
  })

abbrev pub lists : Address → List Address → Bool
lists partner [] = false
lists partner (a ∷ partners) = a == partner || lists partner partners

-- The list without its first entry for the partner.
abbrev pub remove_first : Address → List Address → List Address
remove_first partner [] = []
remove_first partner (a ∷ partners) =
    if a == partner then partners else a ∷ remove_first partner partners

unfoldable pub sync_partners : Address → Bool → List Address → List Address
sync_partners partner true partners =
    if lists partner partners then partners else partners ++ partner ∷ []
sync_partners partner false partners = remove_first partner partners

unfoldable pub set_whitelist_status : FactoryEnv → Address → Bool → Factory → FactoryCall Factory
unfolding require_admin sync_partners
set_whitelist_status env partner status s = do
  admin ← require_admin env s
  ok (record s {
    whitelisted_partner = update s.whitelisted_partner partner status;
    partners_list = sync_partners partner status s.partners_list;
  })

abbrev pub no_stats : PartnerStats
no_stats = record {
  total_raffles = 0;
  total_volume = pos 0;
  total_fees_generated = pos 0;
  first_raffle_at = 0;
  latest_raffle_at = 0;
}

unfoldable pub get_partner_stats : Address → Factory → Option PartnerStats
get_partner_stats partner s =
    if s.whitelisted_partner partner
    then some (or_else (s.partner_stats partner) no_stats)
    else none

abbrev pub no_profile : CreatorProfile
no_profile = record { name = []; verified = false; raffles_created = 0 }

unfoldable pub get_profile : Address → Factory → CreatorProfile
get_profile creator s = or_else (s.creator_profile creator) no_profile

unfoldable pub set_profile_name : FactoryEnv → Address → Bytes → Factory → FactoryCall Factory
unfolding get_profile
set_profile_name env creator name s = do
  require_auth env creator
  reject_if (ltb max_description_length (length name)) invalid_parameters
  let profile = record (get_profile creator s) { name = name }
  ok (record s { creator_profile = update s.creator_profile creator (some profile) })

unfoldable pub set_verified : FactoryEnv → Address → Bool → Factory → FactoryCall Factory
unfolding require_admin get_profile
set_verified env creator verified s = do
  admin ← require_admin env s
  let profile = record (get_profile creator s) { verified = verified }
  ok (record s { creator_profile = update s.creator_profile creator (some profile) })
