-- ===== src/FilterArtworks/Connection.antt =====
-- The whole resolver: the checks, the query, the loaders of the CMS and what the connection is made
-- of. The texts of errors of the runtime are left out, and of an artwork the code passes on its id.
-- `none` in place of a size, a length or a cursor stands for what a missing size gives, NaN.
use metaphysics.Common.{
  [], ◌∷◌, ℕ, ◌+◌, ◌*◌, min, String, Bool, true, false, not, ◌&&◌, ◌||◌, Option, none, some, List,
  if◌then◌else◌, or_text, or_else, ◌>>=◌,
}
use mathlib.Core.Option
use metaphysics.Common.Int.{ℤ}
use metaphysics.Common.Json.{Json, Fields, empty, field, lookup, truthy}
use metaphysics.Pagination.{
  PageCursors, Relay, compute_total_pages, create_page_cursors, page_number_cap, page_to_cursor,
}
use metaphysics.Pagination.Args.{ConnectionOptions}
use metaphysics.FilterArtworks.{filter_options}
use metaphysics.FilterArtworks.Checks.{is_text, refusal}
use metaphysics.FilterArtworks.Query.{Query, filter_query, omit_all}

-- What the search answers: the works, and the total if it is among the aggregations.
pub record Found : Type 0 where
  pub hits : List String
  pub total : Option ℕ

-- A page of works with its header `x-total-count`.
pub record Page : Type 0 where
  pub body : List String
  pub total_count : Option String

pub record Services : Type 0 where
  pub relay : Relay
  pub get_paging_parameters : ConnectionOptions Fields → Option ℕ × ℕ
  pub parse_int : String → ℕ
  pub is_cms_request : Bool
  pub has_authenticated_loader : Bool
  pub search : Query → Option Found
  pub partner_artworks_all : Option (Json → Option ℕ → ℕ → Json → Option Page)
  pub partner_list_artworks : Option (Json → Option ℕ → ℕ → Option Page)

pub record FilterConnection : Type 0 where
  pub query : Query
  pub hits : List String
  pub total : ℕ
  pub page_cursors : Option PageCursors
  pub array_length : Option ℕ
  pub slice_start : ℤ
  pub end_cursor : Option String

-- An exception of the code or of the runtime, a rejected request, the options alone, or a connection.
pub data Resolved : Type 0 where
  threw : String → Resolved
  type_error rejected : Resolved
  only_options : Query → Resolved
  connected : FilterConnection → Resolved

abbrev pub has_no_field : Fields → Bool
has_no_field empty = true
has_no_field (field name value fields) = false

unfoldable pub is_simple_cms_request : Fields → Bool
is_simple_cms_request input =
    truthy (lookup "includeUnpublished" input)
    && (truthy (lookup "disableNotForSaleSorting" input)
        && ((not (truthy (lookup "medium" input)) || is_text "*" (lookup "medium" input))
            && has_no_field (
                omit_all
                  ("partnerID" ∷ "partnerListID" ∷ "sort" ∷ "includeUnpublished"
                    ∷ "disableNotForSaleSorting" ∷ "medium" ∷ "includeNonArtsyListed" ∷ "first"
                    ∷ "after" ∷ "page" ∷ [])
                  input)))

module _ (services : Services) where
  -- `Math.min(total, totalPages * size)`
  unfoldable pub array_length : ℕ → Option ℕ → Option ℕ
  array_length total none = none
  array_length total (some size) = do
    total_pages ← compute_total_pages total size (some page_number_cap)
    some (min total (total_pages * size))

  abbrev pub page_found : Page → Found
  page_found page = record {
    hits = page.body;
    total = some (services.parse_int (or_else (or_text page.total_count (some "0")) ""));
  }

  abbrev pub partner_list_page : Fields → Query → Option (Option Page)
  partner_list_page input query = elim services.partner_list_artworks [
    | none ↦ none
    | some load ↦
        let partner_list = lookup "partnerListID" input in
        if truthy partner_list && is_text "partner_list_position" (lookup "sort" input)
        then some (load partner_list query.gravity.size query.gravity.page)
        else none
  ]

  -- The loaders that serve simple requests of the CMS: `none` if neither does.
  unfoldable pub cms_page : Fields → Query → Option (Option Page)
  unfolding is_simple_cms_request
  cms_page input query =
      let partner = lookup "partnerID" input in
      let from_list = partner_list_page input query in
      if not (is_simple_cms_request input) then none else elim services.partner_artworks_all [
        | none ↦ from_list
        | some load ↦
            if truthy partner && is_text "-created_at" (lookup "sort" input)
            then some (
                load partner query.gravity.size query.gravity.page
                  (lookup "includeNonArtsyListed" input))
            else from_list
      ]

  unfoldable pub connection_with : Query → Found → ℕ → FilterConnection
  unfolding array_length
  connection_with query found total = record {
    query = query;
    hits = found.hits;
    total = total;
    page_cursors = elim query.gravity.size [
      | none ↦ none
      | some size ↦
          create_page_cursors services.relay query.gravity.page size total 5 (some page_number_cap)
    ];
    array_length = array_length total query.gravity.size;
    slice_start = query.gravity.offset;
    end_cursor =
        Option.map (λ (size : ℕ). page_to_cursor services.relay (query.gravity.page + 1) size)
          query.gravity.size;
  }

  unfoldable pub connection : Query → Found → Resolved
  unfolding connection_with
  connection query found = elim found.total [
    | none ↦ threw "Expected filter results to contain a `total` aggregation"
    | some total ↦ connected (connection_with query found total)
  ]

  abbrev pub connection_of : Query → Option Found → Resolved
  connection_of query none = rejected
  connection_of query (some found) = connection query found

  -- Without an input, taking a request of the CMS apart is a TypeError.
  unfoldable pub fetched : Option Fields → Query → Resolved
  fetched input query =
      let searched = connection_of query (services.search query) in
      if services.is_cms_request
      then elim input [
        | none ↦ type_error
        | some args ↦ elim (cms_page args query) [
          | none ↦ searched
          | some page ↦ connection_of query (Option.map page_found page)
        ]
      ]
      else searched

  -- `resolve`, given the arguments of the root and of the input, what `mapRootToFilterParams` adds,
  -- and whether the request selects more than the id.
  unfoldable pub filter_artworks : Fields → Option Fields → Fields → Bool → Resolved
  unfolding fetched
  filter_artworks root input added selects_more =
      let options = filter_options root input in
      let query =
        filter_query services.get_paging_parameters services.has_authenticated_loader options
          added in
      let resolved = fetched input query in
      elim (refusal options) [
        | some message ↦ threw message
        | none ↦ if selects_more then resolved else only_options query
      ]
