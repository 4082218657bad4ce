-- ===== src/AllPages/Whole.antt =====
-- The pages together are the whole list.
use native.Mathlib.Nat.{div-add-mod, mod-lt}
use metaphysics.Common.{
  true, false, ℕ, zero, suc, ◌+◌, ◌-◌, ◌*◌, ◌≤◌, ◌<◌, Option, some, List, [], ◌∷◌, ◌++◌, length,
  take, drop, take-append-drop, drop-nil, drop-add, ◌≡◌, sym, ap, ◌∙◌, arith,
}
use metaphysics.Pagination.{ceil_div}
use metaphysics.AllPages.{
  Params, Request, Response, parse_count, page_count, size_of, bodies_from, all_via_loader,
}

-- The loader serves the list: asked for the count it tells how many elements there are, and asked
-- for a page, counted from 1, of any size, it answers with the elements of that page.
abbrev pub Serves : {R D : Type 0} → (Request R → Option (Response D)) → R → List D → Type 0
Serves {D = D} loader rest items =
    ((r : Response D) × (loader (record { page = 1; size = 0; counts = true; rest = rest })
        ≡ some r)
      × (parse_count r.total_count ≡ some (length items)))
    × ((i size : ℕ)
        → (r : Response D) × (loader
              (record { page = i + 1; size = size; counts = false; rest = rest })
            ≡ some r)
          × (r.body ≡ take size (drop (i * size) items)))

module _ {D : Type 0} where
  drop_past : (n : ℕ) (xs : List D) → length xs ≤ n → drop n xs ≡ []
  drop_past n [] h = drop-nil n
  drop_past zero (x ∷ xs) h = absurd (omega arith)
  drop_past (suc n) (x ∷ xs) h = drop_past n xs (omega arith)

pages_cover : (n s : ℕ) → n ≤ ceil_div n (suc s) * suc s
unfolding ceil_div
pages_cover n s =
    let parts = div-add-mod (n + suc s - 1) (suc s) in
    let small = mod-lt (n + suc s - 1) {m = suc s} (omega arith) in omega arith

page_count-covers : (count size : ℕ) → 0 < size → count ≤ (0 + page_count (some count) size) * size
unfolding page_count
page_count-covers count zero h = absurd (omega arith)
page_count-covers count (suc s) h = let covered = pages_cover count s in omega arith

module _ {R D : Type 0} (loader : Request R → Option (Response D)) (params : Params R) where
  bodies-drop :
      (items : List D) (i n : ℕ)
      → Serves loader params.rest items
      → length items ≤ (i + n) * size_of params
      → bodies_from loader params i n ≡ some (drop (i * size_of params) items)
  bodies-drop items i zero served h =
      ap some (sym (drop_past (i * size_of params) items (omega arith)))
  bodies-drop items i (suc n) served h =
      let (r, e, body) = served.1 i (size_of params) in
      rw (e, bodies-drop items (i + 1) n served (omega arith), body)
        (ap some (
          ap (λ (l : List D). take (size_of params) (drop (i * size_of params) items) ++ l)
            (ap (λ (k : ℕ). drop k items) (omega arith)
              ∙ sym (drop-add (i * size_of params) (size_of params) items))
          ∙ take-append-drop (size_of params) (drop (i * size_of params) items)))

-- From a service that counts a list and answers each of its pages, at a size that is not 0, all pages
-- together are the list: every element, in order, once.
pub all_via_loader-whole :
    {R D : Type 0} (loader : Request R → Option (Response D)) (params : Params R) (items : List D)
    → 0 < size_of params
    → Serves loader params.rest items
    → all_via_loader loader params ≡ some items
unfolding all_via_loader
all_via_loader-whole loader params items positive served =
    let (r, e, counted) = served.0 in
    let start : 0 * size_of params ≡ 0 = omega arith in
    rw (e, counted)
      (bodies-drop loader params items 0 (page_count (some (length items)) (size_of params)) served
          (page_count-covers (length items) (size_of params) positive)
        ∙ ap (λ (k : ℕ). some (drop k items)) start)
