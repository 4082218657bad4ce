-- ===== src/Pagination.antt =====
-- Page cursors: src/schema/v2/fields/pagination.ts.
-- Pages, sizes and counts are natural numbers; the cursor of page 0 or 1 is computed on integers.
pub mod Around
pub mod Args
pub mod Offsets
mod Tests
use metaphysics.Common.{
  ℕ, zero, suc, ◌+◌, ◌-◌, ◌*◌, ◌/◌, ◌%◌, min, String, Bool, true, false, ◌&&◌, Option, none, some,
  List, [], ◌∷◌, ltb, leb, ◌==◌, if◌then◌else◌,
}
use metaphysics.Common.Int.{ℤ, pos, ◌-ℤ◌, ◌*ℤ◌}

pub record PageCursor : Type 0 where
  pub cursor : String
  pub page : ℕ
  pub is_current : Bool

pub record PageCursors : Type 0 where
  pub first : Option PageCursor
  pub last : Option PageCursor
  pub around : List PageCursor
  pub previous : Option PageCursor

abbrev pub prefix : String
prefix = "arrayconnection"

abbrev pub page_number_cap : ℕ
page_number_cap = 100

-- The packages that the code calls: `toGlobalId` of graphql-relay, and the runtime's `String`.
pub record Relay : Type 0 where
  pub to_global_id : String → String → String
  pub string_of : ℤ → String

-- `Math.ceil(a / b)` for 0 < b
unfoldable pub ceil_div : ℕ → ℕ → ℕ
ceil_div a b = (a + b - 1) / b

-- `pageNumberCap ? … : …`: null and 0 are no cap
abbrev pub cap_of : Option ℕ → Option ℕ
cap_of none = none
cap_of (some zero) = none
cap_of (some (suc n)) = some (suc n)

-- `Math.ceil(totalRecords / 0)` is Infinity, or NaN for no records; `none` is a count that is not
-- finite, and a cap bounds Infinity.
abbrev pub without_size : ℕ → Option ℕ → Option ℕ
without_size zero cap = none
without_size (suc n) cap = cap_of cap

abbrev pub with_cap : ℕ → Option ℕ → ℕ
with_cap total none = total
with_cap total (some cap) = min total cap

unfoldable pub compute_total_pages : ℕ → ℕ → Option ℕ → Option ℕ
unfolding ceil_div
compute_total_pages total_records zero cap = without_size total_records cap
compute_total_pages total_records (suc s) cap =
    some (with_cap (ceil_div total_records (suc s)) (cap_of cap))

-- An even maximum is bumped by 1.
unfoldable pub odd_max : ℕ → ℕ
odd_max max = if max % 2 == 0 then max + 1 else max

module _ (relay : Relay) where
  open relay use {to_global_id, string_of}

  unfoldable pub page_to_cursor : ℕ → ℕ → String
  page_to_cursor page size =
      to_global_id prefix (string_of ((pos page -ℤ pos 1) *ℤ pos size -ℤ pos 1))

  unfoldable pub page_to_cursor_object : ℕ → ℕ → ℕ → PageCursor
  page_to_cursor_object page current_page size = record {
    cursor = page_to_cursor page size;
    page = page;
    is_current = current_page == page;
  }

  -- `n` rounds of the loop of `pageCursorsToArray`, from `page` on
  unfoldable pub page_cursors_from : ℕ → ℕ → ℕ → ℕ → List PageCursor
  page_cursors_from page zero current_page size = []
  page_cursors_from page (suc n) current_page size =
      page_to_cursor_object page current_page size
      ∷ page_cursors_from (suc page) n current_page size

  unfoldable pub page_cursors_to_array : ℕ → ℕ → ℕ → ℕ → List PageCursor
  page_cursors_to_array start end current_page size =
      page_cursors_from start (suc end - start) current_page size

  -- The chain of `if`s. In the middle `Math.floor((max - 3) / 2)` is `max / 2 - 1` for an odd
  -- maximum (-1 for 1), so the pages from `currentPage - offset` to `currentPage + offset` are
  -- those from `currentPage + 1 - max / 2` to `currentPage + max / 2 - 1`.
  unfoldable pub page_cursors : ℕ → ℕ → ℕ → ℕ → PageCursors
  page_cursors current_page size total_pages max =
      let object = λ (page : ℕ). page_to_cursor_object page current_page size in
      let pages = λ (start end : ℕ). page_cursors_to_array start end current_page size in
      if total_pages == 0
      then record {
        first = none;
        last = none;
        around = page_to_cursor_object 1 1 size ∷ [];
        previous = none;
      }
      else if leb total_pages max
      then record { first = none; last = none; around = pages 1 total_pages; previous = none }
      else if leb current_page (max / 2 + 1)
      then record {
        first = none;
        last = some (object total_pages);
        around = pages 1 (max - 1);
        previous = none;
      }
      else if leb total_pages (current_page + max / 2)
      then record {
        first = some (object 1);
        last = none;
        around = pages (total_pages + 2 - max) total_pages;
        previous = none;
      }
      else record {
        first = some (object 1);
        last = some (object total_pages);
        around = pages (current_page + 1 - max / 2) (current_page + max / 2 - 1);
        previous = none;
      }

  unfoldable pub set_previous : ℕ → ℕ → ℕ → PageCursors → PageCursors
  set_previous current_page size total_pages c =
      if ltb 1 current_page && ltb 1 total_pages
      then record c { previous = some (page_to_cursor_object (current_page - 1) current_page size) }
      else c

  -- `none` where the number of pages is not finite.
  unfoldable pub create_page_cursors : ℕ → ℕ → ℕ → ℕ → Option ℕ → Option PageCursors
  unfolding odd_max
  create_page_cursors current_page size total_records max cap =
      elim (compute_total_pages total_records size cap) [
        | none ↦ none
        | some total_pages ↦ some (
            set_previous current_page size total_pages
              (page_cursors current_page size total_pages (odd_max max)))
      ]
