-- ===== src/Factory/Tracking/Partners.antt =====
-- The list of partners against the flag of each partner.
use tikka_contracts.Prelude.{
  Bool, true, false, not, ◌&&◌, ◌||◌, ◌≡◌, ◌≢◌, refl, List, [], ◌∷◌, ◌++◌, ◌==◌, if◌then◌else◌,
  arith, IsDistinct, All, All-IsDistinct-append,
}
use tikka_contracts.Prelude.Outcome.{ok, Returns, Returns-bind, Returns-ok}
use tikka_contracts.Shared.Types.{Address}
use tikka_contracts.Instance.State.{update}
use tikka_contracts.Factory.State.{Factory, FactoryEnv}
use tikka_contracts.Factory.Tracking.{lists, remove_first, sync_partners, set_whitelist_status}

-- The list has every flagged partner, and each once.
pub record IsPartnerList (flag : Address → Bool) (partners : List Address) : Type 0 where
  pub in_sync : (a : Address) → lists a partners ≡ flag a
  pub distinct : IsDistinct partners

lists-append :
    (a b : Address) (partners : List Address)
    → lists a (partners ++ b ∷ []) ≡ (lists a partners || b == a)
lists-append a b [] = ground arith
lists-append a b (c ∷ partners) = ground (arith, lists-append a b partners)

All-lists :
    (a : Address) (partners : List Address) → lists a partners ≡ false → All (λ b. a ≢ b) partners
All-lists a [] h = tt
All-lists a (c ∷ partners) h = (λ e. ground (arith, h, e), All-lists a partners (ground (arith, h)))

lists-All :
    (a : Address) (partners : List Address) → All (λ b. a ≢ b) partners → lists a partners ≡ false
lists-All a [] h = refl
lists-All a (c ∷ partners) h = ground (arith, h.0, lists-All a partners h.1)

lists-remove_first :
    (a b : Address) (partners : List Address)
    → IsDistinct partners
    → lists a (remove_first b partners) ≡ (lists a partners && not (a == b))
lists-remove_first a b [] h = refl
lists-remove_first a b (c ∷ partners) h =
    ground (arith, lists-remove_first a b partners h.1, lists-All c partners h.0)

All-remove_first :
    (P : Address → Type 0) (b : Address) (partners : List Address)
    → All P partners
    → All P (remove_first b partners)
All-remove_first P b [] h = tt
All-remove_first P b (c ∷ partners) h = kept (c == b) (All-remove_first P b partners h.1)
  where
    kept :
        (t : Bool)
        → All P (remove_first b partners)
        → All P (if t then partners else c ∷ remove_first b partners)
    kept true k = h.1
    kept false k = (h.0, k)

remove_first-IsDistinct :
    (b : Address) (partners : List Address)
    → IsDistinct partners
    → IsDistinct (remove_first b partners)
remove_first-IsDistinct b [] h = tt
remove_first-IsDistinct b (c ∷ partners) h = kept (c == b) (remove_first-IsDistinct b partners h.1)
  where
    kept :
        (t : Bool)
        → IsDistinct (remove_first b partners)
        → IsDistinct (if t then partners else c ∷ remove_first b partners)
    kept true k = h.1
    kept false k = (All-remove_first (λ a. c ≢ a) b partners h.0, k)

sync_partners-IsPartnerList :
    (partner : Address) (status : Bool) (flag : Address → Bool) (partners : List Address)
    → IsPartnerList flag partners
    → IsPartnerList (update flag partner status) (sync_partners partner status partners)
unfolding sync_partners
sync_partners-IsPartnerList partner true flag partners p = added (lists partner partners) refl
  where
    added :
        (t : Bool)
        → lists partner partners ≡ t
        → IsPartnerList
            (update flag partner true)
            (if t then partners else partners ++ partner ∷ [])
    added true e = record { in_sync = λ a. ground (arith, p.in_sync a, e); distinct = p.distinct }
    added false e = record {
      in_sync = λ a. ground (arith, lists-append a partner partners, p.in_sync a, e);
      distinct = All-IsDistinct-append partners partner p.distinct (All-lists partner partners e);
    }
sync_partners-IsPartnerList partner false flag partners p = record {
  in_sync = λ a. ground (arith, lists-remove_first a partner partners p.distinct, p.in_sync a);
  distinct = remove_first-IsDistinct partner partners p.distinct;
}

-- A change of a partner's status that succeeds sets the flag of that partner alone, and keeps the list of
-- partners, each listed once, in step with the flags.
pub set_whitelist_status-IsPartnerList :
    (env : FactoryEnv) (partner : Address) (status : Bool) (s t : Factory)
    → IsPartnerList s.whitelisted_partner s.partners_list
    → set_whitelist_status env partner status s ≡ ok t
    → (t.whitelisted_partner ≡ update s.whitelisted_partner partner status)
      × IsPartnerList t.whitelisted_partner t.partners_list
set_whitelist_status-IsPartnerList env partner status s t p e = sets.at e
  where
    sets :
        Returns
          (λ t.
            (t.whitelisted_partner ≡ update s.whitelisted_partner partner status)
            × IsPartnerList t.whitelisted_partner t.partners_list)
          (set_whitelist_status env partner status s)
    sets =
        unfold set_whitelist_status in
        Returns-bind _ _ (λ admin e. Returns-ok _ (
          refl,
          sync_partners-IsPartnerList partner status s.whitelisted_partner s.partners_list p,
        ))
