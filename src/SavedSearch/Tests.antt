-- ===== src/SavedSearch/Tests.antt =====
-- A saved search with a width, an artist and a color.
use metaphysics.SavedSearch.Suggested.{
  Aggregations, suggested, incomplete_source, suggested_filters, all_options, rarity_options,
  series_options, series_of_artist, get_most_popular_options,
}
use metaphysics.SavedSearch.Counted.{Holds}
use metaphysics.SavedSearch.Suggestions.{IsLimited, all_options-IsLimited}
use metaphysics.Common.{
  decimal, split, String, true, false, none, some, List, [], ◌∷◌, ◌≡◌, refl, All,
}
use metaphysics.SavedSearch.{
  Outcome, get_rarity_labels, get_artist_labels, Criteria, SearchCriteriaLabel, done, failed,
  Loaders, Texts, load_error, search_criteria_labels_to_return, get_preferred_metric, label,
}
use metaphysics.SavedSearch.Facets.{get_color_labels, get_price_label}
use metaphysics.SavedSearch.Tables.{get_artwork_medium_by_gene}
use metaphysics.SavedSearch.Labels.{resolve_search_criteria_labels, get_artist_series_labels}
use metaphysics.SavedSearch.Chosen.{is_chosen, labels-chosen}
use metaphysics.SavedSearch.DisplayName.{name_of_labels}

abbrev texts : Texts
texts = record {
  to_title_case = λ (s : String). s;
  to_upper_case = λ (s : String). s;
  to_locale_string = λ (s : String). s;
  size_in = λ (metric s : String). s;
}

abbrev loaders : Loaders
loaders = record {
  artist_loader = λ (id : String). done (some id);
  me_loader = some (done (some "cm"));
  partner_loader = λ (id : String). failed (load_error (some 500));
  artist_series_loader = none;
}

abbrev criteria : Criteria
criteria = record {
  artist_ids = "banksy" ∷ [];
  artist_series_ids = [];
  attribution_class = [];
  additional_gene_ids = [];
  price_range = some "1000-*";
  sizes = [];
  width = some "10-20";
  height = none;
  acquireable = true;
  at_auction = false;
  inquireable_only = false;
  offerable = false;
  materials_terms = [];
  location_cities = [];
  major_periods = [];
  colors = "gray" ∷ [];
  partner_ids = [];
}

open_price :
    get_price_label texts criteria.price_range
    ≡ label "Price" (some "$1000+") "1000-*" "priceRange" ∷ []
unfolding get_price_label split
open_price = refl

drawing : get_artwork_medium_by_gene "4d90d18fdcdd5f44a5000016" ≡ "Drawing"
unfolding get_artwork_medium_by_gene
drawing = refl

-- A series that is not found is skipped.
series_skipped :
    get_artist_series_labels ("gone" ∷ []) (some (λ id. failed (load_error (some 404)))) ≡ done []
unfolding get_artist_series_labels
series_skipped = refl

abbrev color_and_artist : List SearchCriteriaLabel
color_and_artist =
    label "Artist" (some "banksy") "banksy" "artistIDs"
    ∷ label "Color" (some "Gray") "gray" "colors"
    ∷ []

two_fields :
    search_criteria_labels_to_return ("colors" ∷ "artistIDs" ∷ []) []
    ≡ done ("artistIDs" ∷ "colors" ∷ [])
unfolding search_criteria_labels_to_return
two_fields = refl

two_labels :
    resolve_search_criteria_labels texts loaders criteria ("colors" ∷ "artistIDs" ∷ []) []
    ≡ done color_and_artist
unfolding resolve_search_criteria_labels search_criteria_labels_to_return get_preferred_metric
    get_artist_labels get_color_labels
two_labels = refl

labels-chosen_example :
    All
      (λ (l : SearchCriteriaLabel). is_chosen ("artistIDs" ∷ "colors" ∷ []) l.field ≡ true)
      color_and_artist
labels-chosen_example =
    labels-chosen texts loaders criteria ("colors" ∷ "artistIDs" ∷ []) []
      ("artistIDs" ∷ "colors" ∷ []) color_and_artist two_fields two_labels

in_cm : get_preferred_metric loaders.me_loader ≡ done "cm"
unfolding get_preferred_metric
in_cm = refl

abbrev named : String → String → SearchCriteriaLabel
named name value = record {
  name = name;
  display_value = some value;
  value = value;
  field = "field";
}

abbrev six_groups : List SearchCriteriaLabel
six_groups =
    named "Artist" "Andy Warhol"
    ∷ named "Color" "Yellow"
    ∷ named "Price" "$0-$1,000"
    ∷ named "Medium" "Painting"
    ∷ named "Medium" "Print"
    ∷ named "Rarity" "Unique"
    ∷ named "Size" "Small"
    ∷ []

two_more :
    name_of_labels ("artistIDs" ∷ []) six_groups
    ≡ "Andy Warhol — $0-$1,000, Painting or Print, Unique + 2 more"
unfolding name_of_labels decimal
two_more = refl

no_artist : name_of_labels ("colors" ∷ []) (named "Color" "Yellow" ∷ []) ≡ "Yellow"
unfolding name_of_labels
no_artist = refl

abbrev aggregations : Aggregations
aggregations = record {
  attribution_class =
      some (("unique", "Unique") ∷ ("open edition", "Open edition") ∷ ("x", "X") ∷ []);
  medium = some (("painting", "Painting") ∷ ("other", "Other") ∷ []);
  artist_series = some (("one", "One") ∷ ("two", "Two") ∷ ("three", "Three") ∷ []);
}

abbrev filter_of : List String → Outcome Aggregations
filter_of ids = done aggregations

abbrev series_of : String → Outcome (List (String × String))
series_of id = done (("series", "Series") ∷ [])

-- The open edition is not suggested, and no medium has the slug `other`.
four_suggestions :
    suggested_filters filter_of series_of (some ("artist" ∷ [])) none
    ≡ suggested (
        done (
          label "Rarity" (some "Unique") "unique" "attributionClass"
          ∷ label "Medium" (some "Painting") "painting" "additionalGeneIDs"
          ∷ label "Artist Series" (some "One") "one" "artistSeriesIDs"
          ∷ label "Artist Series" (some "Two") "two" "artistSeriesIDs"
          ∷ []))
unfolding suggested_filters all_options rarity_options series_options series_of_artist
    get_rarity_labels get_most_popular_options
four_suggestions = refl

all_options-IsLimited_example :
    Holds (IsLimited none) (all_options filter_of series_of none aggregations)
all_options-IsLimited_example = all_options-IsLimited filter_of series_of none aggregations

source_without_id :
    suggested_filters filter_of series_of
      (some [])
      (some (record { type = some "Artwork"; id = none }))
    ≡ incomplete_source
unfolding suggested_filters
source_without_id = refl
