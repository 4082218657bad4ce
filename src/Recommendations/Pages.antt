-- ===== src/Recommendations/Pages.antt =====
-- The pages of the recommended works.
use metaphysics.Common.{
  ltb, ℕ, zero, suc, ◌*◌, ◌≤◌, String, false, some, List, [], ◌∷◌, ◌++◌, ◌≡◌, refl, sym, ap, ◌∙◌,
  arith, take, take-take-drop, length, Bool-cases, inl, inr,
}
use mathlib.Core.Bool.{false≢true}
use metaphysics.Pagination.Args.{page_offset}
use metaphysics.Pagination.Offsets.{page_offset-whole}
use metaphysics.Search.{has_next_page}
use metaphysics.Search.Pages.{has_next_page_iff}
use metaphysics.Recommendations.{page_artwork_ids}

-- The ids that the pages from 1 to `n` ask for.
abbrev pub pages_up_to : List String → ℕ → ℕ → List String
pages_up_to ids size zero = []
pages_up_to ids size (suc n) =
    pages_up_to ids size n ++ page_artwork_ids ids (page_offset (suc n) (some size)) (some size)

take-whole : {A : Type 0} (n : ℕ) (xs : List A) → length xs ≤ n → take n xs ≡ xs
take-whole zero [] h = refl
take-whole zero (x ∷ xs) h = absurd (omega arith)
take-whole (suc n) [] h = refl
take-whole (suc n) (x ∷ xs) h = ap (λ l. x ∷ l) (take-whole n xs (omega arith))

pages_up_to-take : (ids : List String) (size n : ℕ) → pages_up_to ids size n ≡ take (n * size) ids
unfolding page_artwork_ids
pages_up_to-take ids size zero =
    let nothing : 0 ≡ 0 * size = omega arith in ap (λ (n : ℕ). take n ids) nothing
pages_up_to-take ids size (suc n) =
    rw (page_offset-whole size n, pages_up_to-take ids size n)
      (take-take-drop (n * size) size (suc n * size) ids (grind arith))

not_next-bound :
    (ids : List String) (s n : ℕ)
    → has_next_page n (length ids) (some (suc s)) ≡ false
    → length ids ≤ n * suc s
not_next-bound ids s n h = elim (Bool-cases (ltb (n * suc s) (length ids))) [
  | inl l ↦ absurd (false≢true (sym h ∙ (has_next_page_iff n (length ids) s).1 (ground (arith, l))))
  | inr l ↦ ground (arith, l)
]

-- The pages up to one that has no next page ask for all of the recommended works, each once and in
-- their order.
pub pages_up_to-whole :
    (ids : List String) (s n : ℕ)
    → has_next_page n (length ids) (some (suc s)) ≡ false
    → pages_up_to ids (suc s) n ≡ ids
pages_up_to-whole ids s n h =
    pages_up_to-take ids (suc s) n ∙ take-whole (n * suc s) ids (not_next-bound ids s n h)
