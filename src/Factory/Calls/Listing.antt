-- ===== src/Factory/Calls/Listing.antt =====
-- The pages of raffles in the states that the calls reach.
use tikka_contracts.Prelude.{
  ℕ, zero, suc, ◌+◌, ◌-◌, ◌≤◌, ◌<◌, min, Bool, true, false, ◌≡◌, refl, sym, ap, ◌∙◌, Option, none,
  some, List, [], ◌∷◌, ltb, leb, if◌then◌else◌, length, get_elem?, is_some, arith,
}
use tikka_contracts.Shared.Types.{Address, effective_limit}
use tikka_contracts.Instance.Helpers.{saturating_add_u32}
use tikka_contracts.Factory.State.{Factory}
use tikka_contracts.Factory.Views.{
  PaginationParams, PageResultRaffles, push, collect, get_raffles_page,
}
use tikka_contracts.Factory.Calls.{FactoryReachable}
use tikka_contracts.Factory.Calls.Ids.{IsRegistered}
use tikka_contracts.Factory.Calls.Registered.{FactoryReachable-IsRegistered}

-- The items are the entries from `first` on, one for each.
record Lists (entry : ℕ → Option Address) (first count : ℕ) (items : List Address) : Type 0 where
  size : length items ≡ count
  items_at : (k : ℕ) → k < count → get_elem? items k ≡ entry (first + k)

push-Lists :
    (entry : ℕ → Option Address) (first count : ℕ) (items : List Address) (o : Option Address)
    → entry first ≡ o
    → is_some o ≡ true
    → Lists entry (first + 1) count items
    → Lists entry first (suc count) (push o items)
push-Lists entry first count items none e h l = cc
push-Lists entry first count items (some a) e h l = record { size = ap suc l.size; items_at = at }
  where
    at : (k : ℕ) → k < suc count → get_elem? (a ∷ items) k ≡ entry (first + k)
    at zero h = sym e ∙ ap entry (omega arith)
    at (suc k) h = l.items_at k (omega arith) ∙ ap entry (omega arith)

collect-Lists :
    (entry : ℕ → Option Address) (first count : ℕ)
    → ((i : ℕ) → i < first + count → is_some (entry i) ≡ true)
    → Lists entry first count (collect entry first count)
unfolding collect
collect-Lists entry first zero h = record { size = refl; items_at = λ k e. absurd (omega arith) }
collect-Lists entry first (suc count) h =
    push-Lists entry first count (collect entry (first + 1) count) (entry first) refl
      (h first (omega arith)) (collect-Lists entry (first + 1) count (λ i e. h i (omega arith)))

-- A page that is full but for the end of the ids.
pub record IsFullPage (s : Factory) (params : PaginationParams) (page : PageResultRaffles)
    : Type 0 where
  pub size :
      length page.items
      ≡ min (params.offset + effective_limit params.limit) s.next_raffle_id - params.offset
  pub items_at :
      (k : ℕ) → k < length page.items → get_elem? page.items k ≡ s.raffle_by_id (params.offset + k)
  pub total : page.total ≡ s.next_raffle_id
  pub more : page.has_more ≡ ltb (params.offset + effective_limit params.limit) s.next_raffle_id

page-IsFullPage :
    (s : Factory) (params : PaginationParams) (end : ℕ)
    → IsRegistered s
    → params.offset < s.next_raffle_id
    → end ≡ min (params.offset + effective_limit params.limit) s.next_raffle_id
    → IsFullPage s params (record {
      items = collect s.raffle_by_id params.offset (end - params.offset);
      total = s.raffle_count;
      has_more = ltb end s.next_raffle_id;
    })
page-IsFullPage s params end p inside e = record {
  size = listed.size ∙ ap (λ n. n - params.offset) e;
  items_at = λ k h. listed.items_at k (omega (arith, listed.size, h));
  total = p.live_is_created ∙ sym p.next_is_created;
  more = ground (arith, e);
}
  where
    listed :
        Lists s.raffle_by_id params.offset
          (end - params.offset)
          (collect s.raffle_by_id params.offset (end - params.offset))
    listed =
        collect-Lists s.raffle_by_id params.offset (end - params.offset)
          (λ i h. p.below i (omega (arith, h, e, inside)))

past_page :
    (s : Factory) (params : PaginationParams) (p : IsRegistered s)
    → s.next_raffle_id ≤ params.offset
    → IsFullPage s params (record { items = []; total = s.raffle_count; has_more = false })
past_page s params p h = record {
  size = omega (arith, h);
  items_at = λ k e. absurd (omega arith);
  total = p.live_is_created ∙ sym p.next_is_created;
  more = ground (arith, h);
}

-- In every state that the calls reach, a page of raffles holds, in the order of their ids, every raffle
-- from the offset on, up to the limit of a page, no id skipped; its total is the number of all raffles, and
-- it says that there are more exactly where the last id is beyond it.
pub get_raffles_page-IsFullPage :
    {s : Factory} (params : PaginationParams)
    → FactoryReachable s
    → IsFullPage s params (get_raffles_page params s)
unfolding get_raffles_page
get_raffles_page-IsFullPage {s} params r = page (leb s.next_raffle_id params.offset) refl
  where
    p : IsRegistered s
    p = FactoryReachable-IsRegistered r

    next : ℕ
    next = min (saturating_add_u32 params.offset (effective_limit params.limit)) s.next_raffle_id

    page :
        (b : Bool)
        → leb s.next_raffle_id params.offset ≡ b
        → IsFullPage s params (
            if b then record { items = []; total = s.raffle_count; has_more = false } else record {
              items = collect s.raffle_by_id params.offset (next - params.offset);
              total = s.raffle_count;
              has_more = ltb next s.next_raffle_id;
            })
    page true e = past_page s params p (ground (arith, e))
    page false e =
        page-IsFullPage s params next p (ground (arith, e))
          (omega (arith, p.next_is_created, p.fits))
