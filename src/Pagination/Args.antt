-- ===== src/Pagination/Args.antt =====
-- Connection arguments and Gravity's page arguments: `convertConnectionArgsToGravityArgs` and
-- `convertGravityToConnectionArgs` of src/lib/helpers.ts, and `paginationResolver` of
-- src/schema/v2/fields/pagination.ts.
use metaphysics.Common.{
  ℕ, zero, suc, ◌+◌, ◌*◌, ◌/◌, String, Bool, true, ◌&&◌, Option, none, some, List, ◌==◌,
  if◌then◌else◌, is_some,
}
use metaphysics.Common.Int.{ℤ, pos, ◌-ℤ◌, ◌*ℤ◌}
use metaphysics.Pagination.{PageCursors, Relay, create_page_cursors, page_number_cap}

-- The options of a connection field. `rest` stands for the keys that the code passes on.
pub record ConnectionOptions (R : Type 0) : Type 0 where
  pub first : Option ℕ
  pub after : Option String
  pub last : Option ℕ
  pub before : Option String
  pub page : Option ℕ
  pub size : Option ℕ
  pub offset : Option ℕ
  pub rest : R

pub record GravityArgs (R : Type 0) : Type 0 where
  pub size : Option ℕ
  pub page : ℕ
  pub offset : ℤ
  pub rest : R

pub record ConnectionArguments : Type 0 where
  pub first : Option ℕ
  pub after : Option String
  pub last : Option ℕ
  pub before : Option String

-- `Math.round(a / b)` for 0 < b: halves are rounded up.
unfoldable pub round_div : ℕ → ℕ → ℕ
round_div a b = (2 * a + b) / (2 * b)

-- `(page - 1) * size || 0`, where a missing size gives NaN
unfoldable pub page_offset : ℕ → Option ℕ → ℤ
page_offset page none = pos 0
page_offset page (some size) = (pos page -ℤ pos 1) *ℤ pos size

-- `size ? Math.round((size + offset) / size) : 1`
unfoldable pub page_of_offset : Option ℕ → ℕ → ℕ
unfolding round_div
page_of_offset none offset = 1
page_of_offset (some zero) offset = 1
page_of_offset (some (suc s)) offset = round_div (suc s + offset) (suc s)

abbrev pub first_of : Option ℕ → Option ℕ → Option ℕ
first_of none b = b
first_of (some a) b = some a

-- `!x` of a number that may be missing
abbrev pub is_falsy : Option ℕ → Bool
is_falsy none = true
is_falsy (some n) = n == 0

module _ {R : Type 0} where
  -- The two `return`s: with a page among the options, and without.
  unfoldable pub gravity_args : Option ℕ → Option ℕ → ℕ → R → GravityArgs R
  gravity_args (some page) size offset rest = record {
    size = size;
    page = page;
    offset = page_offset page size;
    rest = rest;
  }
  gravity_args none size offset rest = record {
    size = size;
    page = page_of_offset size offset;
    offset = pos offset;
    rest = rest;
  }

  -- `getPagingParameters` of relay-cursor-paging gives the limit and the offset of the options.
  unfoldable pub convert_connection_args_to_gravity_args :
      (ConnectionOptions R → Option ℕ × ℕ) → ConnectionOptions R → GravityArgs R
  unfolding gravity_args
  convert_connection_args_to_gravity_args get_paging_parameters options =
      let (limit, offset) = get_paging_parameters options in
      gravity_args options.page (first_of limit options.size) offset options.rest

  unfoldable pub convert_gravity_to_connection_args : ConnectionOptions R → ConnectionArguments
  convert_gravity_to_connection_args options =
      if is_falsy options.first && (is_falsy options.last && is_some options.size)
      then record {
        first = options.size;
        after = options.after;
        last = none;
        before = options.before;
      }
      else record {
        first = options.first;
        after = options.after;
        last = options.last;
        before = options.before;
      }

-- What `paginationResolver` returns: the spread of the connection is its field `connection`.
pub record Paginated (C : Type 0) : Type 0 where
  pub total_count : ℕ
  pub page_cursors : Option PageCursors
  pub connection : C

module _ {T C : Type 0} (relay : Relay) where
  -- `connectionFromArraySlice` of graphql-relay takes the body, the connection arguments, the
  -- length of the whole array and the start of the slice. Of the arguments, `first` defaults to
  -- the size.
  unfoldable pub pagination_resolver :
      (List T → ConnectionArguments → ℕ → ℤ → C)
      → ConnectionArguments
      → List T
      → ℤ
      → ℕ
      → ℕ
      → ℕ
      → Paginated C
  pagination_resolver connection_from_array_slice args body offset page size total_count = record {
    total_count = total_count;
    page_cursors = create_page_cursors relay page size total_count 5 (some page_number_cap);
    connection =
        connection_from_array_slice body (record args { first = first_of args.first (some size) })
          total_count offset;
  }
