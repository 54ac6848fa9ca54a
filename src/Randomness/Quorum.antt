-- ===== src/Randomness/Quorum.antt =====
-- `aggregate_quorum_seeds` of contracts/raffle-instance/src/randomness.rs: the oracles' seeds, sorted
-- by address, are hashed into one seed. The hash and the encoding of addresses are parameters.
pub mod Order
pub mod Insertion
pub mod Independence
use tikka_contracts.Prelude.{
  ℕ, zero, suc, ◌+◌, ◌-◌, ◌/◌, ◌%◌, ◌^◌, Bool, true, false, ◌&&◌, ◌||◌, Option, none, some, List,
  [], ◌∷◌, ◌++◌, ltb, ◌==◌, if◌then◌else◌, length, get_elem?, set,
}
use tikka_contracts.Shared.Types.{Address, Bytes, be_u64}

abbrev pub Seed : Type 0
Seed = Address × ℕ

-- The order of `Bytes`: lexicographic.
unfoldable pub bytes_lt : Bytes → Bytes → Bool
bytes_lt xs [] = false
bytes_lt [] (y ∷ ys) = true
bytes_lt (x ∷ xs) (y ∷ ys) = ltb x y || x == y && bytes_lt xs ys

module _ (address_xdr : Address → Bytes) where
  -- One test and swap of the inner `while`, at index j = suc i; none where it breaks.
  swap_back : List Seed → ℕ → Option (List Seed)
  unfolding bytes_lt
  swap_back sorted i = elim (get_elem? sorted (suc i)) [
    | none ↦ none
    | some at_j ↦ elim (get_elem? sorted i) [
      | none ↦ none
      | some prev ↦
          if bytes_lt (address_xdr at_j.0) (address_xdr prev.0)
          then some (set (set sorted (suc i) prev) i at_j)
          else none
    ]
  ]

  -- `while j > 0`
  sift : List Seed → ℕ → List Seed
  unfolding swap_back
  sift sorted zero = sorted
  sift sorted (suc i) = elim (swap_back sorted i) [ none ↦ sorted | some swapped ↦ sift swapped i ]

  -- `for i in 1..sorted.len()`, with `count` rounds left
  sort_from : ℕ → ℕ → List Seed → List Seed
  unfolding sift
  sort_from i zero sorted = sorted
  sort_from i (suc count) sorted = sort_from (i + 1) count (sift sorted i)

  unfoldable pub sort_seeds : List Seed → List Seed
  unfolding sort_from
  sort_seeds seeds = sort_from 1 (length seeds - 1) seeds

-- `seed.to_be_bytes()`
abbrev pub be_bytes : ℕ → Bytes
be_bytes seed =
    (seed / 2 ^ 56 % 256)
    ∷ (seed / 2 ^ 48 % 256)
    ∷ (seed / 2 ^ 40 % 256)
    ∷ (seed / 2 ^ 32 % 256)
    ∷ (seed / 2 ^ 24 % 256)
    ∷ (seed / 2 ^ 16 % 256)
    ∷ (seed / 2 ^ 8 % 256)
    ∷ (seed % 256)
    ∷ []

unfoldable pub combine : List Seed → Bytes
combine [] = []
combine ((a, seed) ∷ seeds) = be_bytes seed ++ combine seeds

unfoldable pub aggregate_quorum_seeds : (Bytes → Bytes) → (Address → Bytes) → List Seed → ℕ
unfolding sort_seeds combine be_u64
aggregate_quorum_seeds sha256 address_xdr seeds = elim seeds [
  | [] ↦ 0
  | x ∷ xs ↦ be_u64 8 0 (sha256 (combine (sort_seeds address_xdr (x ∷ xs))))
]
