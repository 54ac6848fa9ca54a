-- ===== src/Randomness/Quorum/Insertion.antt =====
-- The insertion sort of the seeds, as insertions into a list that is kept in reverse.
use tikka_contracts.Prelude.{
  ℕ, suc, ◌+◌, ◌-◌, Bool, true, false, if◌then◌else◌, ◌≡◌, refl, ap, ◌∙◌, none, some, List, [], ◌∷◌,
  length, get_elem?, set, arith,
}
use tikka_contracts.Shared.Types.{Address, Bytes}
use tikka_contracts.Randomness.Quorum.{Seed, bytes_lt, swap_back, sift, sort_from, sort_seeds}

abbrev pub rev_append : List Seed → List Seed → List Seed
rev_append [] zs = zs
rev_append (p ∷ ps) zs = rev_append ps (p ∷ zs)

get-rev_append :
    (ps zs : List Seed) (k : ℕ) → get_elem? (rev_append ps zs) (length ps + k) ≡ get_elem? zs k
get-rev_append [] zs k = ap (get_elem? zs) (omega arith)
get-rev_append (p ∷ ps) zs k =
    ap (get_elem? (rev_append ps (p ∷ zs))) (omega arith) ∙ get-rev_append ps (p ∷ zs) (suc k)

set-rev_append :
    (ps zs : List Seed) (k : ℕ) (v : Seed)
    → set (rev_append ps zs) (length ps + k) v ≡ rev_append ps (set zs k v)
set-rev_append [] zs k v = ap (λ i. set zs i v) (omega arith)
set-rev_append (p ∷ ps) zs k v =
    ap (λ i. set (rev_append ps (p ∷ zs)) i v) (omega arith) ∙ set-rev_append ps (p ∷ zs) (suc k) v

module _ (address_xdr : Address → Bytes) where
  abbrev pub before : Seed → Seed → Bool
  before y p = bytes_lt (address_xdr y.0) (address_xdr p.0)

  -- Into a list whose largest entry comes first.
  abbrev pub insert : Seed → List Seed → List Seed
  insert y [] = y ∷ []
  insert y (p ∷ ps) = if before y p then p ∷ insert y ps else y ∷ p ∷ ps

  abbrev pub insert_all : List Seed → List Seed → List Seed
  insert_all [] ps = ps
  insert_all (z ∷ zs) ps = insert_all zs (insert z ps)

  -- The test and swap, where both entries are known.
  swap_back-some :
      (sorted : List Seed) (i : ℕ) (y p : Seed)
      → get_elem? sorted (suc i) ≡ some y
      → get_elem? sorted i ≡ some p
      → swap_back address_xdr sorted i
        ≡ (if before y p then some (set (set sorted (suc i) p) i y) else none)
  unfolding swap_back
  swap_back-some sorted i y p h k = rw (h, k, swap_back) refl

  swap_back-rev_append :
      (ps : List Seed) (p y : Seed) (zs : List Seed)
      → swap_back address_xdr (rev_append ps (p ∷ y ∷ zs)) (length ps)
        ≡ (if before y p then some (rev_append ps (y ∷ p ∷ zs)) else none)
  swap_back-rev_append ps p y zs =
      swap_back-some (rev_append ps (p ∷ y ∷ zs)) (length ps) y p
        (ap (get_elem? (rev_append ps (p ∷ y ∷ zs))) (omega arith)
          ∙ get-rev_append ps (p ∷ y ∷ zs) 1)
        (ap (get_elem? (rev_append ps (p ∷ y ∷ zs))) (omega arith)
          ∙ get-rev_append ps (p ∷ y ∷ zs) 0)
      ∙ ap (λ l. if before y p then some l else none)
          (ap (λ i. set (set (rev_append ps (p ∷ y ∷ zs)) i p) (length ps) y) (omega arith)
            ∙ ap (λ l. set l (length ps) y) (set-rev_append ps (p ∷ y ∷ zs) 1 p)
            ∙ ap (λ i. set (rev_append ps (p ∷ p ∷ zs)) i y) (omega arith)
            ∙ set-rev_append ps (p ∷ p ∷ zs) 0 y)

  -- The inner loop moves the entry behind the sorted ones to its place.
  sift-rev_append :
      (ps : List Seed) (y : Seed) (zs : List Seed)
      → sift address_xdr (rev_append ps (y ∷ zs)) (length ps) ≡ rev_append (insert y ps) zs
  unfolding sift
  sift-rev_append [] y zs = refl
  sift-rev_append (p ∷ ps) y zs =
      ap
        (λ o. elim o [
          | none ↦ rev_append ps (p ∷ y ∷ zs)
          | some swapped ↦ sift address_xdr swapped (length ps)
        ])
        (swap_back-rev_append ps p y zs)
      ∙ moved (before y p) (sift-rev_append ps y (p ∷ zs))
    where
      moved :
          (b : Bool)
          → sift address_xdr (rev_append ps (y ∷ p ∷ zs)) (length ps)
            ≡ rev_append (insert y ps) (p ∷ zs)
          → elim (if b then some (rev_append ps (y ∷ p ∷ zs)) else none) [
            | none ↦ rev_append ps (p ∷ y ∷ zs)
            | some swapped ↦ sift address_xdr swapped (length ps)
          ]
            ≡ rev_append (if b then p ∷ insert y ps else y ∷ p ∷ ps) zs
      moved true e = e
      moved false e = refl

  length-insert : (y : Seed) (ps : List Seed) → length (insert y ps) ≡ suc (length ps)
  length-insert y [] = refl
  length-insert y (p ∷ ps) = ground (arith, length-insert y ps)

  sort_from-rev_append :
      (zs ps : List Seed)
      → sort_from address_xdr (length ps) (length zs) (rev_append ps zs)
        ≡ rev_append (insert_all zs ps) []
  unfolding sort_from
  sort_from-rev_append [] ps = refl
  sort_from-rev_append (z ∷ zs) ps =
      ap
        (λ i.
          sort_from address_xdr i (length zs)
            (sift address_xdr (rev_append ps (z ∷ zs)) (length ps)))
        (omega (arith, length-insert z ps))
      ∙ ap (sort_from address_xdr (length (insert z ps)) (length zs)) (sift-rev_append ps z zs)
      ∙ sort_from-rev_append zs (insert z ps)

  pub sort_seeds-insert_all :
      (x : Seed) (xs : List Seed)
      → sort_seeds address_xdr (x ∷ xs) ≡ rev_append (insert_all (x ∷ xs) []) []
  unfolding sort_seeds
  sort_seeds-insert_all x xs =
      ap (λ n. sort_from address_xdr 1 n (x ∷ xs)) shorter ∙ sort_from-rev_append xs (x ∷ [])
    where
      shorter : length (x ∷ xs) - 1 ≡ length xs
      shorter = omega arith
