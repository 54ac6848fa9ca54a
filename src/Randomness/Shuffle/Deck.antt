-- ===== src/Randomness/Shuffle/Deck.antt =====
-- The deck as a function from positions, and what one round does to it.
use native.Mathlib.Nat.{mod-lt, mod-eq_of_lt}
use tikka_contracts.Prelude.{
  Bool, true, false, ℕ, ◌+◌, ◌-◌, ◌%◌, ◌^◌, ◌≤◌, ◌<◌, ◌≡◌, ◌≢◌, refl, ap, ◌∙◌, [], ◌∷◌, ◌++◌, arith,
  ◌==◌, if◌then◌else◌, All, All-append, IsDistinct, All-IsDistinct-append, length, length-append,
}
use tikka_contracts.Randomness.Shuffle.{Swaps, resolve, record_swap, DrawState, take_candidate}

pub resolve-record_swap :
    (swaps : Swaps) (r v p : ℕ)
    → resolve (record_swap swaps r v) p ≡ (if r == p then v else resolve swaps p)
unfolding resolve record_swap
resolve-record_swap [] r v p = refl
resolve-record_swap ((pos, val) ∷ swaps) r v p = ground (arith, resolve-record_swap swaps r v p)

-- The positions below `remaining` hold different indices below `n`, none of them drawn yet, and the
-- drawn ones are different too.
pub record IsDeck (n : ℕ) (d : DrawState) : Type 0 where
  pub fits : d.remaining + length d.indices ≡ n
  pub in_range : (p : ℕ) → p < d.remaining → resolve d.swaps p < n
  pub injective :
      (p q : ℕ) → p < d.remaining → q < d.remaining → p ≢ q → resolve d.swaps p ≢ resolve d.swaps q
  pub fresh : (p : ℕ) → p < d.remaining → All (λ x. resolve d.swaps p ≢ x) d.indices
  pub drawn_distinct : IsDistinct d.indices
  pub drawn_in_range : All (λ x. x < n) d.indices

-- The position of the old deck from which a round fills position `p` of the new one.
source : ℕ → ℕ → ℕ → ℕ
source r remaining p = if r == p then remaining - 1 else p

module _ (r remaining p : ℕ) (h : p < remaining - 1) where
  source-lt : source r remaining p < remaining
  unfolding source
  source-lt = ground arith

  source-ne : source r remaining p ≢ r
  unfolding source
  source-ne = ground arith

source-injective :
    (r remaining p q : ℕ)
    → p < remaining - 1
    → q < remaining - 1
    → p ≢ q
    → source r remaining p ≢ source r remaining q
unfolding source
source-injective r remaining p q hp hq ne = ground arith

if_resolve :
    (b : Bool) (s : Swaps) (x y : ℕ)
    → (if b then resolve s x else resolve s y) ≡ resolve s (if b then x else y)
if_resolve true s x y = refl
if_resolve false s x y = refl

module _ (n : ℕ) (small : n ≤ 2 ^ 32) (d : DrawState) (v : IsDeck n d) (left : 0 < d.remaining)
    (c : ℕ) where
  r_lt : c % d.remaining < d.remaining
  r_lt = mod-lt c left

  taken : resolve d.swaps (c % d.remaining) % 2 ^ 32 ≡ resolve d.swaps (c % d.remaining)
  taken = mod-eq_of_lt (omega (arith, v.in_range (c % d.remaining) r_lt))

  new_cell :
      (p : ℕ)
      → resolve (take_candidate d c).swaps p
        ≡ resolve d.swaps (source (c % d.remaining) d.remaining p)
  unfolding take_candidate source
  new_cell p =
      resolve-record_swap d.swaps (c % d.remaining) (resolve d.swaps (d.remaining - 1)) p
      ∙ if_resolve (c % d.remaining == p) d.swaps (d.remaining - 1) p

  indices_lem : (take_candidate d c).indices ≡ d.indices ++ resolve d.swaps (c % d.remaining) ∷ []
  unfolding take_candidate
  indices_lem = ap (λ x. d.indices ++ x ∷ []) taken

  fits_lem : (take_candidate d c).remaining + length (take_candidate d c).indices ≡ n
  unfolding take_candidate
  fits_lem =
      omega
        (arith, v.fits, length-append d.indices ((resolve d.swaps (c % d.remaining) % 2 ^ 32) ∷ []))

  -- A round draws one more index and leaves a deck with one position less.
  pub take_candidate-IsDeck : IsDeck n (take_candidate d c)
  take_candidate-IsDeck = record {
    fits = fits_lem;
    in_range = λ p h. rw (new_cell p) (v.in_range _ (source-lt _ _ p (shorter p h)));
    injective = λ p q hp hq ne.
        rw (new_cell p, new_cell q)
          (v.injective _ _ (source-lt _ _ p (shorter p hp)) (source-lt _ _ q (shorter q hq))
            (source-injective _ _ p q (shorter p hp) (shorter q hq) ne));
    fresh = λ p h.
        rw (new_cell p, indices_lem)
          (All-append _ d.indices _ (v.fresh _ (source-lt _ _ p (shorter p h))) (
            v.injective _ _ (source-lt _ _ p (shorter p h)) r_lt (source-ne _ _ p (shorter p h)),
            tt,
          ));
    drawn_distinct =
        rw indices_lem (All-IsDistinct-append d.indices _ v.drawn_distinct (v.fresh _ r_lt));
    drawn_in_range =
        rw indices_lem
          (All-append (λ x. x < n) d.indices _ v.drawn_in_range (v.in_range _ r_lt, tt));
  }
    where
      shorter : (p : ℕ) → p < (take_candidate d c).remaining → p < d.remaining - 1
      shorter p h = unfold take_candidate in h
