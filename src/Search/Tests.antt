-- ===== src/Search/Tests.antt =====
-- A search that loads artists and whose last result is gone.
use metaphysics.Common.{
  any, String, true, false, none, some, List, [], ◌∷◌, ◌≡◌, refl, str_eq, if◌then◌else◌,
}
use metaphysics.Search.{
  inline_fragment, fragment_spread, SearchResult, Processed, entity, searchable_item, SearchArgs,
  Context, process_all, entity_types_to_fetch, fetch, process_search_result_item, resolve,
}
use metaphysics.Search.Kept.{has_no_loader, Keeps, process_all-Keeps}

abbrev result : String → String → SearchResult
result label id = record { label = label; id = id; highlights = none }

abbrev results : List SearchResult
results = result "Fair" "f" ∷ result "Artist" "a" ∷ result "Artist" "gone" ∷ []

abbrev context : Context String
context = record {
  relay = record { to_global_id = λ type id. id; string_of = λ n. "cursor" };
  get_paging_parameters = λ options. (some 2, 0);
  artist = λ id. if str_eq id "a" then some "Andy" else none;
  artwork = λ id. none;
  gene = λ id. none;
  has_internal_search_loader = false;
  search = λ request. some (record { body = results; results = []; total_count = 3 });
}

fetched_artists : any (has_no_loader context ("Artist" ∷ [])) results ≡ false
unfolding fetch
fetched_artists = refl

no_fair_loader : any (has_no_loader context ("Fair" ∷ [])) results ≡ true
unfolding fetch
no_fair_loader = refl

process_all-Keeps_example :
    (nodes : List (Processed String)) × (process_all context ("Artist" ∷ []) results ≡ some nodes)
    × Keeps context ("Artist" ∷ []) results nodes
process_all-Keeps_example = process_all-Keeps context ("Artist" ∷ []) results fetched_artists

loaded :
    process_all context ("Artist" ∷ []) results
    ≡ some (searchable_item (result "Fair" "f") ∷ entity "Artist" "Andy" none ∷ [])
unfolding process_all process_search_result_item fetch
loaded = refl

named_fragment :
    entity_types_to_fetch (inline_fragment (some "Artist") ∷ fragment_spread ∷ []) ≡ none
unfolding entity_types_to_fetch
named_fragment = refl

abbrev args : SearchArgs
args = record {
  options = record {
    first = some 2;
    after = none;
    last = none;
    before = none;
    page = none;
    size = none;
    offset = none;
    rest = tt;
  };
  query = " andy ";
  entities = none;
  variant = none;
  visible_to_public = some true;
  has_aggregations = false;
}

unauthorized : resolve context [] args ≡ none
unfolding resolve
unauthorized = refl
