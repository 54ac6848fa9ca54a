-- ===== src/Randomness/Quorum/Order.antt =====
-- The order of byte strings is total.
use tikka_contracts.Prelude.{true, false, not, ◌≡◌, ◌≢◌, refl, [], ◌∷◌, arith}
use tikka_contracts.Shared.Types.{Bytes}
use tikka_contracts.Randomness.Quorum.{bytes_lt}

-- What is smaller than zs is smaller than whatever is not.
pub bytes_lt-between :
    (xs ys zs : Bytes) → bytes_lt xs zs ≡ true → bytes_lt ys zs ≡ false → bytes_lt xs ys ≡ true
unfolding bytes_lt
bytes_lt-between xs ys [] h k = cc
bytes_lt-between [] [] (z ∷ zs) h k = cc
bytes_lt-between [] (y ∷ ys) (z ∷ zs) h k = refl
bytes_lt-between (x ∷ xs) [] (z ∷ zs) h k = cc
bytes_lt-between (x ∷ xs) (y ∷ ys) (z ∷ zs) h k = ground (arith, h, k, bytes_lt-between xs ys zs)

pub bytes_lt-total : (xs ys : Bytes) → xs ≢ ys → bytes_lt xs ys ≡ not (bytes_lt ys xs)
unfolding bytes_lt
bytes_lt-total [] [] h = absurd (h refl)
bytes_lt-total [] (y ∷ ys) h = refl
bytes_lt-total (x ∷ xs) [] h = refl
bytes_lt-total (x ∷ xs) (y ∷ ys) h = ground (arith, h, bytes_lt-total xs ys)
