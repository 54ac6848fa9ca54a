-- ===== src/Randomness/Quorum/Independence.antt =====
-- The combined seed does not depend on the order of the submissions.
use mathlib.Core.Path.{subst}
use mathlib.Core.Logic.{∥∥₁_elim}
use mathlib.Core.List.{Perm, Permᴰ}
use native.Mathlib.Nat.{ℕ_set}
use tikka_contracts.Prelude.{
  ℕ, suc, Bool, true, false, not, if◌then◌else◌, ◌==◌, ◌≡◌, ◌≢◌, refl, sym, ap, ◌∙◌, List, [], ◌∷◌,
  length, arith,
}
use tikka_contracts.Shared.Types.{Address, Bytes, be_u64}
use tikka_contracts.Randomness.Quorum.{Seed, combine, aggregate_quorum_seeds}
use tikka_contracts.Randomness.Quorum.Order.{bytes_lt-between, bytes_lt-total}
use tikka_contracts.Randomness.Quorum.Insertion.{
  rev_append, before, insert, insert_all, sort_seeds-insert_all,
}

-- The seeds of oracles, each beside its address.
abbrev pub seeds_of : (Address → ℕ) → List Address → List Seed
seeds_of seed [] = []
seeds_of seed (a ∷ oracles) = (a, seed a) ∷ seeds_of seed oracles

Permᴰ-length : {xs ys : List Address} → Permᴰ xs ys → length xs ≡ length ys
Permᴰ-length Permᴰ.nil = refl
Permᴰ-length (Permᴰ.cons e p) = ap suc (Permᴰ-length p)
Permᴰ-length (Permᴰ.swap e f) = refl
Permᴰ-length (Permᴰ.trans p q) = Permᴰ-length p ∙ Permᴰ-length q

module _ (address_xdr : Address → Bytes) where
  insert-after :
      (y p : Seed) (ps : List Seed)
      → before address_xdr y p ≡ true
      → insert address_xdr y (p ∷ ps) ≡ p ∷ insert address_xdr y ps
  insert-after y p ps h = ap (λ b. if b then p ∷ insert address_xdr y ps else y ∷ p ∷ ps) h

  insert-here :
      (y p : Seed) (ps : List Seed)
      → before address_xdr y p ≡ false
      → insert address_xdr y (p ∷ ps) ≡ y ∷ p ∷ ps
  insert-here y p ps h = ap (λ b. if b then p ∷ insert address_xdr y ps else y ∷ p ∷ ps) h

  -- One behind an entry, one before it.
  insert_comm_split :
      (a b p : Seed) (ps : List Seed)
      → before address_xdr a p ≡ true
      → before address_xdr b p ≡ false
      → insert address_xdr a (insert address_xdr b (p ∷ ps))
        ≡ insert address_xdr b (insert address_xdr a (p ∷ ps))
  insert_comm_split a b p ps h k =
      ap (insert address_xdr a) (insert-here b p ps k)
      ∙ insert-after a b (p ∷ ps)
          (bytes_lt-between (address_xdr a.0) (address_xdr b.0) (address_xdr p.0) h k)
      ∙ ap (◌∷◌ b) (insert-after a p ps h)
      ∙ sym (insert-here b p (insert address_xdr a ps) k)
      ∙ ap (insert address_xdr b) (sym (insert-after a p ps h))

  -- Both before all others.
  insert_comm_front :
      (a b : Seed) (ps : List Seed)
      → insert address_xdr a ps ≡ a ∷ ps
      → insert address_xdr b ps ≡ b ∷ ps
      → before address_xdr a b ≡ not (before address_xdr b a)
      → insert address_xdr a (b ∷ ps) ≡ insert address_xdr b (a ∷ ps)
  insert_comm_front a b ps p q h = at (before address_xdr a b) (before address_xdr b a) h
    where
      at :
          (t u : Bool)
          → t ≡ not u
          → (if t then b ∷ insert address_xdr a ps else a ∷ b ∷ ps)
            ≡ (if u then a ∷ insert address_xdr b ps else b ∷ a ∷ ps)
      at true false e = ap (◌∷◌ b) p
      at false true e = ap (◌∷◌ a) (sym q)
      at true true e = cc
      at false false e = cc

  -- Two entries that the order tells apart may be inserted in either order.
  insert_comm :
      (a b : Seed) (ps : List Seed)
      → before address_xdr a b ≡ not (before address_xdr b a)
      → insert address_xdr a (insert address_xdr b ps)
        ≡ insert address_xdr b (insert address_xdr a ps)
  insert_comm a b [] h = insert_comm_front a b [] refl refl h
  insert_comm a b (p ∷ ps) h =
      at (before address_xdr a p) (before address_xdr b p) refl refl (insert_comm a b ps h)
    where
      at :
          (t u : Bool)
          → before address_xdr a p ≡ t
          → before address_xdr b p ≡ u
          → insert address_xdr a (insert address_xdr b ps)
            ≡ insert address_xdr b (insert address_xdr a ps)
          → insert address_xdr a (insert address_xdr b (p ∷ ps))
            ≡ insert address_xdr b (insert address_xdr a (p ∷ ps))
      at true true e k ih =
          ap (insert address_xdr a) (insert-after b p ps k)
          ∙ insert-after a p (insert address_xdr b ps) e
          ∙ ap (◌∷◌ p) ih
          ∙ sym (insert-after b p (insert address_xdr a ps) k)
          ∙ ap (insert address_xdr b) (sym (insert-after a p ps e))
      at true false e k ih = insert_comm_split a b p ps e k
      at false true e k ih = sym (insert_comm_split b a p ps k e)
      at false false e k ih =
          ap (insert address_xdr a) (insert-here b p ps k)
          ∙ insert_comm_front a b (p ∷ ps) (insert-here a p ps e) (insert-here b p ps k) h
          ∙ ap (insert address_xdr b) (sym (insert-here a p ps e))

  -- Seeds are kept by oracle, so that two entries of one address are the same.
  insert_comm_seeds :
      (seed : Address → ℕ) (a b : Address) (ps : List Seed)
      → ((x y : Address) → address_xdr x ≡ address_xdr y → x ≡ y)
      → insert address_xdr (a, seed a) (insert address_xdr (b, seed b) ps)
        ≡ insert address_xdr (b, seed b) (insert address_xdr (a, seed a) ps)
  insert_comm_seeds seed a b ps injective =
      at (a == b) (λ e. ground (arith, e)) (λ e. ground (arith, e))
    where
      at :
          (t : Bool)
          → (t ≡ true → a ≡ b)
          → (t ≡ false → a ≢ b)
          → insert address_xdr (a, seed a) (insert address_xdr (b, seed b) ps)
            ≡ insert address_xdr (b, seed b) (insert address_xdr (a, seed a) ps)
      at true same other =
          subst
            (λ c.
              insert address_xdr (a, seed a) (insert address_xdr (c, seed c) ps)
              ≡ insert address_xdr (c, seed c) (insert address_xdr (a, seed a) ps))
            (same refl) refl
      at false same other =
          insert_comm (a, seed a) (b, seed b) ps
            (bytes_lt-total (address_xdr a) (address_xdr b) (λ e. other refl (injective a b e)))

  insert_all-perm :
      (seed : Address → ℕ) {xs ys : List Address}
      → ((x y : Address) → address_xdr x ≡ address_xdr y → x ≡ y)
      → Permᴰ xs ys
      → (ps : List Seed)
      → insert_all address_xdr (seeds_of seed xs) ps ≡ insert_all address_xdr (seeds_of seed ys) ps
  insert_all-perm seed injective Permᴰ.nil ps = refl
  insert_all-perm seed injective (Permᴰ.cons {a = a} {b = b} {l₁ = xs} {l₂ = ys} e p) ps =
      subst
        (λ c.
          insert_all address_xdr (seeds_of seed (a ∷ xs)) ps
          ≡ insert_all address_xdr (seeds_of seed (c ∷ ys)) ps)
        e (insert_all-perm seed injective p (insert address_xdr (a, seed a) ps))
  insert_all-perm seed injective (Permᴰ.swap {a = a} {b = b} {a' = c} {b' = d} {l = l} e f) ps =
      ap (insert_all address_xdr (seeds_of seed l)) (insert_comm_seeds seed b a ps injective)
      ∙ ap (λ x. insert_all address_xdr (seeds_of seed (x ∷ a ∷ l)) ps) f
      ∙ ap (λ x. insert_all address_xdr (seeds_of seed (c ∷ x ∷ l)) ps) e
  insert_all-perm seed injective (Permᴰ.trans p q) ps =
      insert_all-perm seed injective p ps ∙ insert_all-perm seed injective q ps

aggregate-insert_all :
    (sha256 : Bytes → Bytes) (address_xdr : Address → Bytes) (x : Seed) (xs : List Seed)
    → aggregate_quorum_seeds sha256 address_xdr (x ∷ xs)
      ≡ be_u64 8 0 (sha256 (combine (rev_append (insert_all address_xdr (x ∷ xs) []) [])))
unfolding aggregate_quorum_seeds
aggregate-insert_all sha256 address_xdr x xs =
    ap (λ l. be_u64 8 0 (sha256 (combine l))) (sort_seeds-insert_all address_xdr x xs)

-- Where different addresses have different encodings, the combined seed of the oracles is the same in
-- whatever order they are listed.
pub aggregate_quorum_seeds-perm :
    (sha256 : Bytes → Bytes) (address_xdr : Address → Bytes) (seed : Address → ℕ)
    {xs ys : List Address}
    → ((x y : Address) → address_xdr x ≡ address_xdr y → x ≡ y)
    → Perm xs ys
    → aggregate_quorum_seeds sha256 address_xdr (seeds_of seed xs)
      ≡ aggregate_quorum_seeds sha256 address_xdr (seeds_of seed ys)
aggregate_quorum_seeds-perm sha256 address_xdr seed {xs} {ys} injective p =
    ∥∥₁_elim p (ℕ_set _ _) (λ d. same xs ys d)
  where
    same :
        (xs ys : List Address)
        → Permᴰ xs ys
        → aggregate_quorum_seeds sha256 address_xdr (seeds_of seed xs)
          ≡ aggregate_quorum_seeds sha256 address_xdr (seeds_of seed ys)
    same [] [] d = refl
    same [] (y ∷ ys) d = absurd (omega (arith, Permᴰ-length d))
    same (x ∷ xs) [] d = absurd (omega (arith, Permᴰ-length d))
    same (x ∷ xs) (y ∷ ys) d =
        aggregate-insert_all sha256 address_xdr (x, seed x) (seeds_of seed xs)
        ∙ ap (λ l. be_u64 8 0 (sha256 (combine (rev_append l []))))
            (insert_all-perm address_xdr seed injective d [])
        ∙ sym (aggregate-insert_all sha256 address_xdr (y, seed y) (seeds_of seed ys))
