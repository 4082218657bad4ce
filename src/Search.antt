-- ===== src/Search.antt =====
-- The search: src/schema/v2/search/SearchResolver.ts. `none` is an exception or a rejected request,
-- unless a comment says otherwise. The nodes that `visit` of the package graphql visits below the
-- fields `node` of the query are a parameter.
pub mod Kept
pub mod Pages
mod Tests
use metaphysics.Common.{
  ℕ, zero, suc, ◌+◌, ◌≤◌, String, Bool, true, false, not, ◌||◌, ◌&&◌, Option, none, some, List, [],
  ◌∷◌, if◌then◌else◌, str_eq, includes, is_some, is_truthy, or_else, trim, ltb, ◌==◌, ◌>>=◌,
}
use mathlib.Core.Option
use metaphysics.Common.Int.{ℤ}
use metaphysics.Pagination.{
  PageCursors, Relay, ceil_div, create_page_cursors, page_number_cap, page_to_cursor,
}
use metaphysics.Pagination.Args.{
  ConnectionOptions, GravityArgs, convert_connection_args_to_gravity_args,
}

-- An inline fragment, with its type condition, or the spread of a named fragment.
pub data Node : Type 0 where
  inline_fragment : Option String → Node
  fragment_spread : Node

abbrev pub is_entity_type : String → Bool
is_entity_type name = not (str_eq name "Searchable") && not (str_eq name "SearchableItem")

-- `entityTypesToFetch`: named fragments are an exception.
unfoldable pub entity_types_to_fetch : List Node → Option (List String)
entity_types_to_fetch [] = some []
entity_types_to_fetch (fragment_spread ∷ nodes) = none
entity_types_to_fetch (inline_fragment none ∷ nodes) = entity_types_to_fetch nodes
entity_types_to_fetch (inline_fragment (some name) ∷ nodes) = do
  names ← entity_types_to_fetch nodes
  some (if is_entity_type name then name ∷ names else names)

pub record SearchResult : Type 0 where
  pub label : String
  pub id : String
  pub highlights : Option String

-- A processed result: the object that is loaded, or the result itself, each with the highlights.
pub data Processed (A : Type 0) : Type 0 where
  entity : (typename : String) (response : A) (highlights : Option String) → Processed A
  searchable_item : SearchResult → Processed A

-- The arguments that the code reads: `has_aggregations` is whether there are aggregations.
pub record SearchArgs : Type 0 where
  pub options : ConnectionOptions Unit
  pub query : String
  pub entities : Option (List String)
  pub variant : Option String
  pub visible_to_public : Option Bool
  pub has_aggregations : Bool

-- The request; the other arguments are passed on in it as they are.
pub record SearchRequest : Type 0 where
  pub query : String
  pub page : ℕ
  pub size : Option ℕ
  pub entities : Option (List String)
  pub variant : Option String
  pub visible_to_public : Option Bool

-- What the search answers: the body as a list, or the list in its field `results`, as asked for, and
-- the count of the header, a number.
pub record SearchResponse : Type 0 where
  pub body : List SearchResult
  pub results : List SearchResult
  pub total_count : ℕ

pub record Context (A : Type 0) : Type 0 where
  pub relay : Relay
  pub get_paging_parameters : ConnectionOptions Unit → Option ℕ × ℕ
  pub artist : String → Option A
  pub artwork : String → Option A
  pub gene : String → Option A
  pub has_internal_search_loader : Bool
  pub search : SearchRequest → Option SearchResponse

-- The connection: `nodes`, `array_length` and `slice_start` are passed on to the package.
pub record SearchConnection (A : Type 0) : Type 0 where
  pub nodes : List (Processed A)
  pub array_length : ℕ
  pub slice_start : ℤ
  pub page_cursors : Option PageCursors
  pub end_cursor : Option String
  pub has_previous_page : Bool
  pub has_next_page : Bool

-- `page < Math.ceil(totalCount / size)`, where a missing size gives NaN
unfoldable pub has_next_page : ℕ → ℕ → Option ℕ → Bool
unfolding ceil_div
has_next_page page total none = false
has_next_page page total (some zero) = not (total == 0)
has_next_page page total (some (suc s)) = ltb page (ceil_div total (suc s))

module _ {A : Type 0} (context : Context A) where
  -- `none` where no loader is configured, `some none` where the loader rejects.
  unfoldable pub fetch : SearchResult → Option (Option A)
  fetch result =
      if str_eq result.label "Artist"
      then some (context.artist result.id)
      else if str_eq result.label "Artwork"
      then some (context.artwork result.id)
      else if str_eq result.label "Gene"
      then some (context.gene result.id)
      else none

  -- `some none` is null: the object was not found.
  unfoldable pub process_search_result_item :
      List String → SearchResult → Option (Option (Processed A))
  unfolding fetch
  process_search_result_item types result =
      let fetched =
        Option.map
          (λ (response : Option A).
            Option.map (λ (a : A). entity result.label a result.highlights) response)
          (fetch result) in
      if includes types result.label then fetched else some (some (searchable_item result))

  -- `Promise.all` of the processed results, and `compact`
  unfoldable pub process_all : List String → List SearchResult → Option (List (Processed A))
  unfolding process_search_result_item
  process_all types [] = some []
  process_all types (result ∷ results) = do
    item ← process_search_result_item types result
    items ← process_all types results
    some (elim item [ none ↦ items | some node ↦ node ∷ items ])

  -- No result is processed if there is none, so the fragments are read only then.
  abbrev pub processed : List Node → List SearchResult → Option (List (Processed A))
  processed nodes [] = some []
  processed nodes (result ∷ results) = do
    types ← entity_types_to_fetch nodes
    process_all types (result ∷ results)

  -- A page of 0 is deleted from the arguments.
  abbrev pub page_given : Option ℕ → Option ℕ
  page_given none = none
  page_given (some n) = if n == 0 then none else some n

  unfoldable pub search_args : SearchArgs → GravityArgs Unit
  search_args args =
      convert_connection_args_to_gravity_args context.get_paging_parameters
        (record args.options { page = page_given args.options.page })

  unfoldable pub search_request : SearchArgs → SearchRequest
  unfolding search_args
  search_request args = record {
    query = trim args.query;
    page = (search_args args).page;
    size = (search_args args).size;
    entities = args.entities;
    variant = if is_truthy args.variant then args.variant else none;
    visible_to_public = args.visible_to_public;
  }

  abbrev pub connection_of : GravityArgs Unit → ℕ → List (Processed A) → SearchConnection A
  connection_of options total nodes = record {
    nodes = nodes;
    array_length = total;
    slice_start = options.offset;
    page_cursors = elim options.size [
      | none ↦ none
      | some size ↦
          create_page_cursors context.relay options.page size total 5 (some page_number_cap)
    ];
    end_cursor =
        Option.map (λ (size : ℕ). page_to_cursor context.relay (options.page + 1) size)
          options.size;
    has_previous_page = ltb 1 options.page;
    has_next_page = has_next_page options.page total options.size;
  }

  -- `resolve`, given the visited nodes of the query
  unfoldable pub resolve : List Node → SearchArgs → Option (SearchConnection A)
  unfolding search_request
  resolve query_nodes args =
      let found = context.search (search_request args) >>= λ response.
      processed query_nodes (if args.has_aggregations then response.results else response.body)
      >>= λ nodes. some (connection_of (search_args args) response.total_count nodes) in
      if is_some args.visible_to_public && not context.has_internal_search_loader
      then none
      else found
