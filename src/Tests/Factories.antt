-- ===== src/Tests/Factories.antt =====
-- The theorems of Factory and Builder at concrete inputs.
use tikka_contracts.Factory.State.{FactoryEnv}
use tikka_contracts.Prelude.{false, refl}
use tikka_contracts.Factory.Calls.{on_set_factory_paused, factory_perform}
use tikka_contracts.Tests.Samples.{host}
use tikka_contracts.Factory.Calls.Authority.{is_for_admin, only_admin}
use mathlib.Core.List.Perm
use tikka_contracts.Randomness.Quorum.{aggregate_quorum_seeds}
use tikka_contracts.Randomness.Quorum.Independence.{seeds_of, aggregate_quorum_seeds-perm}
use tikka_contracts.Factory.Views.{get_raffles_page, PaginationParams}
use tikka_contracts.Factory.Calls.Listing.{IsFullPage, get_raffles_page-IsFullPage}
use tikka_contracts.Prelude.{◌≡◌, ◌≢◌, ◌≤◌, true, [], ◌∷◌, ◌++◌, arith, inr}
use tikka_contracts.Prelude.Int.{pos}
use tikka_contracts.Prelude.Outcome.{ok}
use tikka_contracts.Shared.Types.{Address, resolve_defaults}
use tikka_contracts.Shared.Constants.{max_protocol_fee_bp}
use tikka_contracts.Shared.Validate.{with_address_cap}
use tikka_contracts.Shared.Builder.{from_config, build}
use tikka_contracts.Shared.Builder.Build.{build-from_config}
use tikka_contracts.Instance.State.{update}
use tikka_contracts.Factory.State.{Leaderboard}
use tikka_contracts.Factory.Config.{execute_config_change}
use tikka_contracts.Factory.Config.Outcomes.{Executes, execute_config_change-Executes}
use tikka_contracts.Factory.Registry.{clean_old_raffle}
use tikka_contracts.Factory.Registry.Creates.{Creates, create_raffle-Creates}
use tikka_contracts.Factory.Recurring.{trigger_next_round, new_entry}
use tikka_contracts.Factory.Tracking.{upsert_leaderboard}
use tikka_contracts.Factory.Tracking.Top.{IsTop, others, upsert_leaderboard-IsTop}
use tikka_contracts.Factory.Tracking.Once.{entries_for, upsert_leaderboard-once}
use tikka_contracts.Factory.Tracking.Partners.{IsPartnerList, set_whitelist_status-IsPartnerList}
use tikka_contracts.Factory.Views.Pages.{walk, walk-all}
use tikka_contracts.Factory.Calls.{run_start}
use tikka_contracts.Factory.Calls.Registered.{FactoryReachable-IsRegistered, clean_never_succeeds}
use tikka_contracts.Factory.Calls.Ids.{IsRegistered}
use tikka_contracts.Factory.Calls.Timelock.{fee_capped}
use tikka_contracts.Factory.Calls.Timelock.Delay.{by_fee_change, no_early_execution}
use tikka_contracts.Factory.Calls.Timelock.Final.{no_second_execution}
use tikka_contracts.Factory.Calls.Rounds.Limits.{HasRounds, FactoryReachable-HasRounds}
use tikka_contracts.Factory.Calls.Rounds.Intervals.{no_early_round}
use tikka_contracts.Tests.Samples.{config}
use tikka_contracts.Tests.FactoryRuns.{
  now, hour_later, weekly, ready, one_raffle, one_raffle_created, one_raffle-FactoryReachable,
  proposed, proposed_id, proposed-FactoryReachable, withdrawn, withdrawn_ok, subscribed,
  subscribed-FactoryReachable, first_round, first_round_made, listed, listed_ok, withdrawn_counted,
  subscribed_entry, ready-IsPartnerList, built_ok,
}

FactoryReachable-IsRegistered_example : IsRegistered one_raffle
FactoryReachable-IsRegistered_example = FactoryReachable-IsRegistered one_raffle-FactoryReachable

clean_never_succeeds_example : clean_old_raffle now 0 one_raffle ≢ ok ready
clean_never_succeeds_example = clean_never_succeeds now 0 one_raffle-FactoryReachable ready

fee_capped_example : one_raffle.protocol_fee_bp ≤ max_protocol_fee_bp
fee_capped_example = fee_capped one_raffle-FactoryReachable

create_raffle-Creates_example : Creates now ready 4 config (100, one_raffle)
create_raffle-Creates_example =
    create_raffle-Creates now 4 100 config ready one_raffle one_raffle_created

no_early_execution_example : execute_config_change now 1 proposed ≢ ok ready
no_early_execution_example =
    no_early_execution now (by_fee_change 300 proposed_id) run_start (omega arith) ready

no_second_execution_example : execute_config_change now 1 withdrawn ≢ ok ready
no_second_execution_example =
    no_second_execution now now 1 {since = 0} proposed-FactoryReachable (inr withdrawn_ok) run_start
      withdrawn_counted ready

execute_config_change-Executes_example :
    Executes now 1 proposed (execute_config_change now 1 proposed)
execute_config_change-Executes_example = execute_config_change-Executes now 1 proposed

no_early_round_example : trigger_next_round hour_later 0 first_round ≢ ok (101, first_round)
no_early_round_example =
    no_early_round hour_later hour_later 0 101 subscribed first_round first_round
      subscribed-FactoryReachable first_round_made run_start (omega arith) (101, first_round)

FactoryReachable-HasRounds_example :
    HasRounds (new_entry now 4 weekly) (subscribed.recurring_raffle_instances 0)
FactoryReachable-HasRounds_example =
    FactoryReachable-HasRounds subscribed-FactoryReachable 0 (new_entry now 4 weekly)
      subscribed_entry

board : Leaderboard
board = (11, pos 5) ∷ (12, pos 3) ∷ []

upsert_leaderboard-IsTop_example :
    IsTop (others 12 board ++ (12, pos 9) ∷ []) (upsert_leaderboard 12 (pos 9) board)
upsert_leaderboard-IsTop_example = upsert_leaderboard-IsTop 12 (pos 9) board

upsert_leaderboard-once_example : entries_for 11 (upsert_leaderboard 12 (pos 9) board) ≤ 1
upsert_leaderboard-once_example = upsert_leaderboard-once 12 (pos 9) board once 11
  where
    once : (r : Address) → entries_for r board ≤ 1
    once r = unfold board in ground arith

set_whitelist_status-IsPartnerList_example :
    (listed.whitelisted_partner ≡ update ready.whitelisted_partner 8 true)
    × IsPartnerList listed.whitelisted_partner listed.partners_list
set_whitelist_status-IsPartnerList_example =
    set_whitelist_status-IsPartnerList now 8 true ready listed ready-IsPartnerList listed_ok

walk-all_example : walk 4 (7 ∷ 8 ∷ 9 ∷ []) 2 0 ≡ 7 ∷ 8 ∷ 9 ∷ []
walk-all_example = walk-all (7 ∷ 8 ∷ 9 ∷ []) 2 (omega arith)

build-from_config_example :
    build 100 (λ t. true) (from_config (resolve_defaults (with_address_cap config)))
    ≡ ok (resolve_defaults (with_address_cap config))
build-from_config_example =
    build-from_config 100 (λ t. true) (from_config config)
      (resolve_defaults (with_address_cap config)) built_ok

first_page : PaginationParams
first_page = record { limit = 5; offset = 0 }

get_raffles_page-IsFullPage_example :
    IsFullPage one_raffle first_page (get_raffles_page first_page one_raffle)
get_raffles_page-IsFullPage_example =
    get_raffles_page-IsFullPage first_page one_raffle-FactoryReachable

aggregate_quorum_seeds-perm_example :
    aggregate_quorum_seeds (λ b. b) (λ a. a ∷ []) (seeds_of (λ a. 5) (7 ∷ 3 ∷ []))
    ≡ aggregate_quorum_seeds (λ b. b) (λ a. a ∷ []) (seeds_of (λ a. 5) (3 ∷ 7 ∷ []))
aggregate_quorum_seeds-perm_example =
    aggregate_quorum_seeds-perm (λ b. b) (λ a. a ∷ []) (λ a. 5) (λ x y e. cc e) (Perm.swap 3 7 [])

unsigned_now : FactoryEnv
unsigned_now = record now { host = record host { authorized = λ a. false } }

only_admin_example : factory_perform unsigned_now (on_set_factory_paused true) ready ≢ ok ready
only_admin_example =
    only_admin unsigned_now (on_set_factory_paused true) ready ready for_admin
      (λ admin e. unfold unsigned_now in refl)
  where
    for_admin : is_for_admin (on_set_factory_paused true) ≡ true
    for_admin = unfold is_for_admin in refl
