-- ===== src/Factory/Views/Pages.antt =====
-- The pages of a list against the list.
use mathlib.Core.Path.{subst}
use tikka_contracts.Prelude.{
  ℕ, zero, suc, ◌+◌, ◌-◌, ◌≤◌, ◌<◌, ◌^◌, min, Bool, true, false, ◌≡◌, refl, sym, ap, ◌∙◌, Option,
  none, some, List, [], ◌∷◌, ◌++◌, ltb, leb, if◌then◌else◌, length, get_elem?, arith,
}
use tikka_contracts.Shared.Types.{Address, effective_limit}
use tikka_contracts.Factory.Views.{
  PaginationParams, PageResultRaffles, push, collect, paginate_raffles,
}

abbrev drop : ℕ → List Address → List Address
drop zero source = source
drop (suc n) [] = []
drop (suc n) (a ∷ source) = drop n source

-- All pages from an offset on, each from where the last one ended; `count` pages at most.
unfoldable pub walk : ℕ → List Address → ℕ → ℕ → List Address
unfolding paginate_raffles effective_limit
walk zero source limit offset = []
walk (suc count) source limit offset =
    let page = paginate_raffles source (record { limit = limit; offset = offset }) in
    let rest = walk count source limit (offset + effective_limit limit) in
    page.items ++ (if page.has_more then rest else [])

drop-all : (n : ℕ) (source : List Address) → length source ≤ n → drop n source ≡ []
drop-all zero [] h = refl
drop-all zero (a ∷ source) h = absurd (omega arith)
drop-all (suc n) [] h = refl
drop-all (suc n) (a ∷ source) h = drop-all n source (omega arith)

push-drop :
    (n : ℕ) (source : List Address)
    → n < length source
    → push (get_elem? source n) (drop (suc n) source) ≡ drop n source
push-drop zero [] h = absurd (omega arith)
push-drop zero (a ∷ source) h = refl
push-drop (suc n) [] h = absurd (omega arith)
push-drop (suc n) (a ∷ source) h = push-drop n source (omega arith)

push-append : (o : Option Address) (xs ys : List Address) → push o xs ++ ys ≡ push o (xs ++ ys)
push-append none xs ys = refl
push-append (some a) xs ys = refl

collect-drop :
    (source : List Address) (i count : ℕ)
    → i + count ≤ length source
    → collect (get_elem? source) i count ++ drop (i + count) source ≡ drop i source
unfolding collect
collect-drop source i zero h = ap (λ k. drop k source) (omega arith)
collect-drop source i (suc count) h =
    push-append (get_elem? source i) (collect (get_elem? source) (i + 1) count)
      (drop (i + suc count) source)
    ∙ ap (push (get_elem? source i)) (
        ap (λ k. collect (get_elem? source) (i + 1) count ++ drop k source) shift
        ∙ collect-drop source (i + 1) count (omega arith)
        ∙ ap (λ k. drop k source) next)
    ∙ push-drop i source (omega arith)
  where
    shift : i + suc count ≡ i + 1 + count
    shift = omega arith

    next : i + 1 ≡ suc i
    next = omega arith

effective_limit-positive : (limit : ℕ) → 1 ≤ effective_limit limit
unfolding effective_limit
effective_limit-positive limit = ground arith

-- The page from an offset to an end.
abbrev page_to : List Address → ℕ → ℕ → PageResultRaffles
page_to source offset end = record {
  items = collect (get_elem? source) offset (end - offset);
  total = length source;
  has_more = ltb end (length source);
}

abbrev empty_page : List Address → PageResultRaffles
empty_page source = record { items = []; total = length source; has_more = false }

if_true : (x y : PageResultRaffles) (b : Bool) → b ≡ true → (if b then x else y) ≡ x
if_true x y true e = refl
if_true x y false e = cc

if_false : (x y : PageResultRaffles) (b : Bool) → b ≡ false → (if b then x else y) ≡ y
if_false x y true e = cc
if_false x y false e = refl

paginate_raffles-past :
    (source : List Address) (params : PaginationParams)
    → length source ≤ params.offset
    → paginate_raffles source params ≡ empty_page source
unfolding paginate_raffles
paginate_raffles-past source params h =
    if_true _ _ (leb (length source) params.offset) (ground arith)

paginate_raffles-at :
    (source : List Address) (params : PaginationParams)
    → length source < 2 ^ 32
    → params.offset < length source
    → paginate_raffles source params
      ≡ page_to source params.offset
          (min (params.offset + effective_limit params.limit) (length source))
unfolding paginate_raffles
paginate_raffles-at source params fits h =
    if_false _ _ (leb (length source) params.offset) (ground arith)
    ∙ ap (page_to source params.offset) (omega (arith, fits))

collect-to :
    (source : List Address) (offset end : ℕ)
    → offset ≤ end
    → end ≤ length source
    → collect (get_elem? source) offset (end - offset) ++ drop end source ≡ drop offset source
collect-to source offset end low high =
    subst
      (λ k. collect (get_elem? source) offset (end - offset) ++ drop k source ≡ drop offset source)
      (omega (arith, low)) (collect-drop source offset (end - offset) (omega (arith, low, high)))

walk-drop :
    (count : ℕ) (source : List Address) (limit offset : ℕ)
    → length source < 2 ^ 32
    → length source < offset + count
    → walk count source limit offset ≡ drop offset source
unfolding walk
walk-drop zero source limit offset fits h = sym (drop-all offset source (omega arith))
walk-drop (suc count) source limit offset fits h = step (leb (length source) offset) refl (
    walk-drop count source limit (offset + effective_limit limit) fits
      (omega (arith, effective_limit-positive limit)))
  where
    shown : PageResultRaffles → List Address
    shown page =
        page.items
        ++ (if page.has_more then walk count source limit (offset + effective_limit limit) else [])

    inside :
        (end : ℕ)
        → offset ≤ end
        → end ≤ length source
        → (b : Bool) → ltb end (length source) ≡ b
        → (b ≡ true → end ≡ offset + effective_limit limit)
        → walk count source limit (offset + effective_limit limit)
          ≡ drop (offset + effective_limit limit) source
        → collect (get_elem? source) offset (end - offset)
            ++ (if b then walk count source limit (offset + effective_limit limit) else [])
          ≡ drop offset source
    inside end low high true e far rest =
        ap (λ xs. collect (get_elem? source) offset (end - offset) ++ xs)
          (rest ∙ ap (λ k. drop k source) (sym (far refl)))
        ∙ collect-to source offset end low high
    inside end low high false e far rest =
        ap (λ xs. collect (get_elem? source) offset (end - offset) ++ xs)
          (sym (drop-all end source (ground (arith, e))))
        ∙ collect-to source offset end low high

    step :
        (b : Bool)
        → leb (length source) offset ≡ b
        → walk count source limit (offset + effective_limit limit)
          ≡ drop (offset + effective_limit limit) source
        → shown (paginate_raffles source (record { limit = limit; offset = offset }))
          ≡ drop offset source
    step true e rest =
        ap shown (
          paginate_raffles-past source (record { limit = limit; offset = offset })
            (ground (arith, e)))
        ∙ sym (drop-all offset source (ground (arith, e)))
    step false e rest =
        ap shown (
          paginate_raffles-at source (record { limit = limit; offset = offset }) fits
            (ground (arith, e)))
        ∙ inside (min (offset + effective_limit limit) (length source)) (ground (arith, e))
            (omega arith) _ refl (λ k. ground (arith, k)) rest

-- Pages that are asked for one after the other, each behind the last until none is left, give a list of
-- fewer than 2 ^ 32 entries back, whatever limit they are asked with.
pub walk-all :
    (source : List Address) (limit : ℕ)
    → length source < 2 ^ 32
    → walk (suc (length source)) source limit 0 ≡ source
walk-all source limit fits = walk-drop (suc (length source)) source limit 0 fits (omega arith)
