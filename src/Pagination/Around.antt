-- ===== src/Pagination/Around.antt =====
-- What the page cursors show: which pages `around` lists, and when the first and the last page
-- have cursors of their own.
use metaphysics.Common.{
  ℕ, zero, suc, ◌+◌, ◌-◌, ◌/◌, ◌%◌, ◌≤◌, ◌<◌, ◌≡◌, refl, ap, ◌∙◌, Bool, true, ◌&&◌, not, Option,
  some, List, arith, ltb, leb, ◌==◌, if◌then◌else◌, length, any, is_some,
}
use metaphysics.Pagination.{
  PageCursor, PageCursors, Relay, odd_max, create_page_cursors, compute_total_pages,
  page_to_cursor_object, page_cursors_from, page_cursors_to_array, page_cursors, set_previous,
}

-- The page has a cursor in the list.
unfoldable pub lists : ℕ → List PageCursor → Bool
lists page = any (λ c. c.page == page)

module _ (relay : Relay) where
  lists-from :
      (p start n cp size : ℕ)
      → lists p (page_cursors_from relay start n cp size) ≡ (leb start p && ltb p (start + n))
  unfolding lists page_cursors_from page_to_cursor_object
  lists-from p start zero cp size = ground arith
  lists-from p start (suc n) cp size = ground (arith, lists-from p (suc start) n cp size)

  lists-array :
      (p start end cp size : ℕ)
      → lists p (page_cursors_to_array relay start end cp size) ≡ (leb start p && leb p end)
  unfolding page_cursors_to_array
  lists-array p start end cp size = ground (arith, lists-from p start (suc end - start) cp size)

  length-from : (start n cp size : ℕ) → length (page_cursors_from relay start n cp size) ≡ n
  unfolding page_cursors_from
  length-from start zero cp size = refl
  length-from start (suc n) cp size = ap suc (length-from (suc start) n cp size)

  length-array :
      (start end cp size : ℕ)
      → length (page_cursors_to_array relay start end cp size) ≡ suc end - start
  unfolding page_cursors_to_array
  length-array start end cp size = length-from start (suc end - start) cp size

  -- The pages that `around` lists, by the branch that is taken.
  window : ℕ → ℕ → ℕ → ℕ × ℕ
  window cp t m =
      if leb t m
      then (1, t)
      else if leb cp (m / 2 + 1)
      then (1, m - 1)
      else if leb t (cp + m / 2)
      then (t + 2 - m, t)
      else (cp + 1 - m / 2, cp + m / 2 - 1)

  around-window :
      (cp size t m : ℕ)
      → 0 < t
      → (set_previous relay cp size t (page_cursors relay cp size t m)).around
        ≡ page_cursors_to_array relay (window cp t m).0 (window cp t m).1 cp size
  unfolding page_cursors set_previous window
  around-window cp size t m h = ground arith

  window_current :
      (cp t m : ℕ)
      → 0 < t
      → m % 2 ≡ 1
      → 3 ≤ m
      → 0 < cp
      → (leb (window cp t m).0 cp && leb cp (window cp t m).1) ≡ leb cp t
  unfolding window
  window_current cp t m ht odd hm hc = ground arith

  window_bounds :
      (cp t m : ℕ)
      → 0 < t
      → m % 2 ≡ 1
      → 3 ≤ m
      → 0 < cp
      → (1 ≤ (window cp t m).0)
        × ((window cp t m).1 ≤ t)
        × (suc (window cp t m).1 ≤ m + (window cp t m).0)
  unfolding window
  window_bounds cp t m ht odd hm hc = ground arith

  odd_max_lem : (max : ℕ) → 2 ≤ max → (odd_max max % 2 ≡ 1) × (3 ≤ odd_max max)
  unfolding odd_max
  odd_max_lem max h = ground arith

  -- With a positive number of pages the cursors are those of `page_cursors`.
  create_lem :
      (cp size total max : ℕ) (cap : Option ℕ) (t : ℕ) (c : PageCursors)
      → compute_total_pages total size cap ≡ some t
      → create_page_cursors relay cp size total max cap ≡ some c
      → c ≡ set_previous relay cp size t (page_cursors relay cp size t (odd_max max))
  unfolding create_page_cursors
  create_lem cp size total max cap t c e f = ground arith

  ends_lem :
      (cp size t m : ℕ)
      → 0 < t
      → m % 2 ≡ 1
      → 3 ≤ m
      → m < t
      → (is_some (page_cursors relay cp size t m).first
          ≡ not (leb (window cp t m).0 1 && leb 1 (window cp t m).1))
        × (is_some (page_cursors relay cp size t m).last
            ≡ not (leb (window cp t m).0 t && leb t (window cp t m).1))
  unfolding window page_cursors
  ends_lem cp size t m ht odd hm long = ground arith

  set_previous_first : (a b d : ℕ) (k : PageCursors) → (set_previous relay a b d k).first ≡ k.first
  unfolding set_previous
  set_previous_first a b d k = ground arith

  set_previous_last : (a b d : ℕ) (k : PageCursors) → (set_previous relay a b d k).last ≡ k.last
  unfolding set_previous
  set_previous_last a b d k = ground arith

  module _ (cp size total max : ℕ) (cap : Option ℕ) (t : ℕ) (c : PageCursors) (large : 2 ≤ max)
      (page : 0 < cp) (pages : 0 < t) (counted : compute_total_pages total size cap ≡ some t)
      (created : create_page_cursors relay cp size total max cap ≡ some c) where
    lists-around :
        (p : ℕ)
        → lists p c.around
          ≡ (leb (window cp t (odd_max max)).0 p && leb p (window cp t (odd_max max)).1)
    lists-around p =
        rw (create_lem cp size total max cap t c counted created)
          (rw (around-window cp size t (odd_max max) pages) (lists-array p _ _ cp size))

    -- Where the maximum is at least 2, and neither the current page nor the number of pages is 0,
    -- `around` lists the current page exactly when it is one of the pages there are: a current page
    -- beyond the last is not listed.
    pub around-lists_current : lists cp c.around ≡ leb cp t
    around-lists_current =
        lists-around cp
        ∙ window_current cp t (odd_max max) pages (odd_max_lem max large).0
            (odd_max_lem max large).1 page

    -- `around` has no more cursors than the maximum, an even one bumped by 1, and every page that
    -- it lists is one of the pages there are.
    pub around_bounds :
        (length c.around ≤ odd_max max) × ((p : ℕ) → lists p c.around ≡ true → (1 ≤ p) × (p ≤ t))
    around_bounds =
        let b =
          window_bounds cp t (odd_max max) pages (odd_max_lem max large).0 (odd_max_lem max large).1
            page in
        let e =
          ap (λ (k : PageCursors). length k.around)
            (create_lem cp size total max cap t c counted created) in
        let f = ap length (around-window cp size t (odd_max max) pages) in
        let g = length-array (window cp t (odd_max max)).0 (window cp t (odd_max max)).1 cp size in
        (omega arith, λ p h. ground (arith, lists-around p))

    -- Where there are more pages than the maximum, page 1 has a cursor of its own (`first`) exactly
    -- when `around` does not list it, and so has the last page (`last`).
    pub first-last_iff :
        odd_max max < t
        → (is_some c.first ≡ not (lists 1 c.around)) × (is_some c.last ≡ not (lists t c.around))
    first-last_iff long =
        let e =
          ends_lem cp size t (odd_max max) pages (odd_max_lem max large).0 (odd_max_lem max large).1
            long in
        rw (lists-around 1, lists-around t)
          (rw (create_lem cp size total max cap t c counted created) (
            rw
              (
                set_previous_first cp size t (page_cursors relay cp size t (odd_max max)),
                set_previous_last cp size t (page_cursors relay cp size t (odd_max max)),
              )
              e))
