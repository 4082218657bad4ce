-- ===== src/FilterArtworks/Query.antt =====
-- What is asked for: the options of the request and the loader.
use metaphysics.Common.{
  ℕ, String, Bool, true, false, not, ◌&&◌, ◌||◌, Option, none, some, List, [], ◌∷◌, ◌++◌,
  if◌then◌else◌, str_eq, includes, keep,
}
use metaphysics.Common.Json.{
  Json, bool, number, text, array, Items, nil, cons, Fields, lookup, spread, omit_field, set_field,
  truthy,
}
use metaphysics.Pagination.Args.{
  ConnectionOptions, GravityArgs, convert_connection_args_to_gravity_args,
}
use metaphysics.FilterArtworks.{remove_nulls}
use metaphysics.FilterArtworks.Checks.{is_text}

pub data LoaderKind : Type 0 where
  unauthenticated authenticated uncached : LoaderKind

pub record Query : Type 0 where
  pub loader : LoaderKind
  pub gravity : GravityArgs Fields
  pub aggregations : List String

abbrev pub texts_of_items : Items → List String
texts_of_items nil = []
texts_of_items (cons (text s) items) = s ∷ texts_of_items items
texts_of_items (cons _ items) = texts_of_items items

abbrev pub texts_of : Json → List String
texts_of (array items) = texts_of_items items
texts_of _ = []

-- `"total"` is pushed if it is not there.
unfoldable pub with_total : List String → List String
with_total aggregations =
    if includes aggregations "total" then aggregations else aggregations ++ ("total" ∷ [])

abbrev pub number_of : Json → Option ℕ
number_of (number n) = some n
number_of _ = none

abbrev pub string_of : Json → Option String
string_of (text s) = some s
string_of _ = none

abbrev pub omit_all : List String → Fields → Fields
omit_all [] fields = fields
omit_all (name ∷ names) fields = omit_field name (omit_all names fields)

abbrev pub connection_names : List String
connection_names =
    "first" ∷ "after" ∷ "last" ∷ "before" ∷ "page" ∷ "size" ∷ "offset" ∷ "aggregations" ∷ []

-- The options as those of a connection, with all other fields.
abbrev pub connection_options : Fields → ConnectionOptions Fields
connection_options options = record {
  first = number_of (lookup "first" options);
  after = string_of (lookup "after" options);
  last = number_of (lookup "last" options);
  before = string_of (lookup "before" options);
  page = number_of (lookup "page" options);
  size = number_of (lookup "size" options);
  offset = number_of (lookup "offset" options);
  rest = omit_all connection_names options;
}

-- The other fields of `gravityOptions`, with what the parent adds.
unfoldable pub gravity_fields : Fields → Fields → Fields
gravity_fields options added =
    set_field "disable_not_for_sale_sorting" (lookup "disableNotForSaleSorting" options)
      (spread (connection_options options).rest added)

abbrev pub is_false : Json → Bool
is_false (bool b) = not b
is_false _ = false

-- Only unpublished works are among the unpublished ones.
unfoldable pub with_unpublished : Fields → Fields
with_unpublished fields =
    if is_false (lookup "published" fields)
    then set_field "include_unpublished" (bool true) fields
    else fields

unfoldable pub without_any_medium : Fields → Fields
without_any_medium fields =
    let medium = lookup "medium" fields in
    if is_text "*" medium || not (truthy medium) then omit_field "medium" fields else fields

-- The fields are those of `gravityOptions`.
unfoldable pub requested_authorized_filters : Fields → Fields → Bool
requested_authorized_filters options fields =
    truthy (lookup "include_unpublished" fields)
    || (truthy (lookup "include_artworks_by_followed_artists" options)
        || (truthy (lookup "visibility_level" options)
            || truthy (lookup "include_all_json" options)))

-- What is deleted where nobody is logged in.
abbrev pub personal_names : List String
personal_names =
    "include_json" ∷ "visibility_level" ∷ "include_unpublished"
    ∷ "include_artworks_by_followed_artists" ∷ []

unfoldable pub without_personal : Fields → Fields
without_personal fields = omit_all personal_names fields

-- Sorting or filtering by price in a sale.
unfoldable pub reads_uncached : Fields → Bool
reads_uncached fields =
    let sort = lookup "sort" fields in
    let is_sorting_by_price = is_text "-prices" sort || is_text "prices" sort in
    let is_filtering_by_price =
      truthy (lookup "price_range" fields) && not (is_text "*-*" (lookup "priceRange" fields)) in
    (is_sorting_by_price || is_filtering_by_price) && truthy (lookup "sale_id" fields)

-- The fields of `gravityOptions`, once the medium and the nulls are gone.
unfoldable pub cleaned_fields : Fields → Fields → Fields
unfolding gravity_fields with_unpublished without_any_medium remove_nulls
cleaned_fields options added =
    remove_nulls (without_any_medium (with_unpublished (gravity_fields options added)))

-- The loader and the options, given whether there is an authenticated loader, and what
-- `getPagingParameters` of the package relay-cursor-paging makes of the options.
unfoldable pub filter_query :
    (ConnectionOptions Fields → Option ℕ × ℕ) → Bool → Fields → Fields → Query
unfolding cleaned_fields requested_authorized_filters without_personal reads_uncached with_total
filter_query get_paging_parameters has_authenticated options added =
    let aggregations = with_total (texts_of (lookup "aggregations" options)) in
    let fields = cleaned_fields options added in
    let gravity =
      convert_connection_args_to_gravity_args get_paging_parameters (connection_options options) in
    let is_personal =
      includes (texts_of (lookup "aggregations" options)) "followed_artists"
      || requested_authorized_filters options (with_unpublished (gravity_fields options added)) in
    if is_personal && has_authenticated
    then record {
      loader = authenticated;
      gravity = record gravity { rest = fields };
      aggregations = aggregations;
    }
    else if is_personal
    then record {
      loader = unauthenticated;
      gravity = record gravity { rest = without_personal fields };
      aggregations = keep (λ (item : String). not (str_eq item "followed_artists")) aggregations;
    }
    else record {
      loader = if reads_uncached fields then uncached else unauthenticated;
      gravity = record gravity { rest = fields };
      aggregations = aggregations;
    }
