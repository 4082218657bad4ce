-- ===== src/Pagination/Tests.antt =====
-- Page cursors and page arguments on concrete inputs.
use metaphysics.Common.{
  ℕ, ◌*◌, ◌<◌, ◌≡◌, refl, Option, none, some, List, [], ◌∷◌, map, arith, leb, ◌<>◌,
}
use metaphysics.Pagination.{
  page_cursors_to_array, page_cursors_from, page_to_cursor_object, PageCursor, PageCursors, Relay,
  odd_max, compute_total_pages, create_page_cursors, page_cursors, set_previous,
}
use metaphysics.Pagination.Around.{lists, around-lists_current}
use metaphysics.Pagination.Args.{ConnectionOptions}

abbrev test_relay : Relay
test_relay = record { to_global_id = λ a b. a <> b; string_of = λ n. "" }

-- Page 7 of 20.
abbrev middle : PageCursors
middle = set_previous test_relay 7 10 20 (page_cursors test_relay 7 10 20 5)

pages_of : List PageCursor → List ℕ
pages_of cs = map (λ (c : PageCursor). c.page) cs

middle_pages : pages_of middle.around ≡ 6 ∷ 7 ∷ 8 ∷ []
unfolding pages_of set_previous page_cursors page_cursors_to_array page_cursors_from
    page_to_cursor_object
middle_pages = refl

created : create_page_cursors test_relay 7 10 200 5 (some 100) ≡ some middle
unfolding create_page_cursors compute_total_pages
created = refl

counted : compute_total_pages 200 10 (some 100) ≡ some 20
unfolding compute_total_pages
counted = refl

around-lists_current_example : lists 7 middle.around ≡ leb 7 20
around-lists_current_example =
    around-lists_current test_relay 7 10 200 5 (some 100) 20 middle (omega arith) (omega arith)
      (omega arith) counted created

longer : odd_max 5 < 20
unfolding odd_max
longer = omega arith

abbrev after_thirty : ConnectionOptions (Unit {0})
after_thirty = record {
  first = some 10;
  after = some "30";
  last = none;
  before = none;
  page = none;
  size = none;
  offset = none;
  rest = tt;
}

abbrev thirty : ConnectionOptions (Unit {0}) → Option ℕ × ℕ
thirty options = (options.first, 3 * 10)
