-- ===== src/SavedSearch/Suggested.antt =====
-- The filters that are suggested for a saved search:
-- src/schema/v2/previewSavedSearch/suggestedFilters.ts. An aggregation is the keys and the names of
-- its object, in their order, `none` if it is missing.
use metaphysics.Common.{
  String, Bool, false, not, ◌&&◌, Option, none, some, List, [], ◌∷◌, ◌++◌, map, ℕ, take, keep, find,
  includes, non_empty, is_truthy, if◌then◌else◌,
}
use metaphysics.SavedSearch.Tables.{Entry, Medium, artwork_mediums, is_text}
use metaphysics.SavedSearch.{SearchCriteriaLabel, Outcome, done, and_then, label, get_rarity_labels}

pub record Source : Type 0 where
  pub type : Option String
  pub id : Option String

pub record Aggregations : Type 0 where
  pub attribution_class : Option (List Entry)
  pub medium : Option (List Entry)
  pub artist_series : Option (List Entry)

-- The exceptions of the arguments, and what is suggested.
pub data Suggestions : Type 0 where
  no_artist_ids incomplete_source : Suggestions
  suggested : Outcome (List SearchCriteriaLabel) → Suggestions

abbrev pub allowed_rarity_suggestions : List String
allowed_rarity_suggestions = "unique" ∷ "limited edition" ∷ []

abbrev pub max_suggestions : ℕ
max_suggestions = 2

abbrev pub max_artist_series_suggestions : ℕ
max_artist_series_suggestions = 5

abbrev pub entry_key : Entry → String
entry_key entry = entry.0

unfoldable pub get_most_popular_options : Option (List Entry) → List String
get_most_popular_options none = []
get_most_popular_options (some aggregation) = take max_suggestions (map entry_key aggregation)

abbrev pub is_allowed : SearchCriteriaLabel → Bool
is_allowed l = includes allowed_rarity_suggestions l.value

-- A class that is not in the table is a TypeError, also one that would not be suggested.
unfoldable pub rarity_options : Option (List Entry) → Outcome (List SearchCriteriaLabel)
unfolding get_most_popular_options
rarity_options aggregation =
    and_then (get_rarity_labels (keep non_empty (get_most_popular_options aggregation)))
      (λ labels. done (keep is_allowed labels))

abbrev pub medium_label : String → Option Medium → List SearchCriteriaLabel
medium_label value none = []
medium_label value (some m) = label "Medium" (some m.name) value "additionalGeneIDs" ∷ []

-- `getMediumSearchCriteriaLabel`, compacted
abbrev pub medium_labels : List String → List SearchCriteriaLabel
medium_labels [] = []
medium_labels (value ∷ values) =
    let rest = medium_labels values in
    if non_empty value
    then medium_label value
        (find (λ (m : Medium). is_text m.medium_filter_gene_slug value) artwork_mediums)
      ++ rest
    else rest

abbrev pub series_entry : Entry → SearchCriteriaLabel
series_entry (slug, name) = label "Artist Series" (some name) slug "artistSeriesIDs"

unfoldable pub series_of_artist : Option (List Entry) → List SearchCriteriaLabel
series_of_artist none = []
series_of_artist (some series) = map series_entry (take max_suggestions series)

-- The loader takes the artwork and answers slugs and titles.
unfoldable pub series_of_artwork :
    (String → Outcome (List Entry)) → Option String → Outcome (List SearchCriteriaLabel)
series_of_artwork load none = done []
series_of_artwork load (some id) =
    and_then (load id)
      (λ series. done (map series_entry (take max_artist_series_suggestions series)))

abbrev pub is_artwork_source : Option Source → Bool
is_artwork_source none = false
is_artwork_source (some source) = is_text source.type "Artwork"

abbrev pub source_id : Option Source → Option String
source_id none = none
source_id (some source) = source.id

abbrev pub is_incomplete : Option Source → Bool
is_incomplete none = false
is_incomplete (some source) = not (is_truthy source.type && is_truthy source.id)

module _ (filter : List String → Outcome Aggregations)
    (load_series : String → Outcome (List Entry)) where
  unfoldable pub series_options : Option Source → Aggregations → Outcome (List SearchCriteriaLabel)
  unfolding series_of_artist series_of_artwork
  series_options source aggregations =
      if is_artwork_source source
      then series_of_artwork load_series (source_id source)
      else done (series_of_artist aggregations.artist_series)

  unfoldable pub all_options : Option Source → Aggregations → Outcome (List SearchCriteriaLabel)
  unfolding rarity_options series_options
  all_options source aggregations =
      and_then (rarity_options aggregations.attribution_class) (λ rarities.
        and_then (series_options source aggregations) (λ series.
          done
            (rarities ++ (medium_labels (get_most_popular_options aggregations.medium) ++ series))))

  -- `suggestedFilters`, given the artists of the parent
  unfoldable pub suggested_filters : Option (List String) → Option Source → Suggestions
  unfolding all_options
  suggested_filters none source = no_artist_ids
  suggested_filters (some artist_ids) source =
      if is_incomplete source
      then incomplete_source
      else suggested (and_then (filter artist_ids) (all_options source))
