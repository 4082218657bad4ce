-- ===== src/SavedSearch.antt =====
-- Labels of a saved search: src/schema/v2/previewSavedSearch/searchCriteriaLabel.ts.
-- An absent list of criteria is empty, and an absent flag is false. What a promise is rejected with
-- or what is thrown is a `Failure`; where several loads of one list fail, it is the first's.
pub mod Tables
pub mod Facets
pub mod Labels
pub mod Collected
pub mod Chosen
pub mod Fields
pub mod DisplayName
pub mod Grouped
pub mod Suggested
pub mod Counted
pub mod Suggestions
mod Tests
use mathlib.Core.Option
use metaphysics.Common.{
  ℕ, String, Bool, true, false, ◌&&◌, ◌||◌, not, Option, none, some, List, [], ◌∷◌, ◌++◌, map,
  if◌then◌else◌, is_truthy, non_empty, or_else, includes, str_eq, ◌<>◌, shown, keep, split,
  get_elem?,
}
use metaphysics.SavedSearch.Tables.{
  Entry, value_at, get_artwork_medium_by_gene, attribution_classes, color_names, sizes_in_cm,
  sizes_in_inches, period_texts,
}

pub record Criteria : Type 0 where
  pub artist_ids : List String
  pub artist_series_ids : List String
  pub attribution_class : List String
  pub additional_gene_ids : List String
  pub price_range : Option String
  pub sizes : List String
  pub width : Option String
  pub height : Option String
  pub acquireable : Bool
  pub at_auction : Bool
  pub inquireable_only : Bool
  pub offerable : Bool
  pub materials_terms : List String
  pub location_cities : List String
  pub major_periods : List String
  pub colors : List String
  pub partner_ids : List String

-- `display_value` is `none` where a look-up gives undefined.
pub record SearchCriteriaLabel : Type 0 where
  pub name : String
  pub display_value : Option String
  pub value : String
  pub field : String

pub data Failure : Type 0 where
  only_and_except : Failure
  unknown_class unknown_color : String → Failure
  -- a loader's error, with its status code
  load_error : Option ℕ → Failure

pub data Outcome {ℓ} (A : Type ℓ) : Type ℓ where
  done : A → Outcome A
  failed : Failure → Outcome A

abbrev pub and_then {ℓ κ} : {A : Type ℓ} {B : Type κ} → Outcome A → (A → Outcome B) → Outcome B
and_then (done a) f = f a
and_then (failed e) f = failed e

-- The loaders, with the field of the answer that is read; those that need a user may be missing.
pub record Loaders : Type 0 where
  pub artist_loader : String → Outcome (Option String)
  pub me_loader : Option (Outcome (Option String))
  pub partner_loader : String → Outcome (Option String)
  pub artist_series_loader : Option (String → Outcome (Option String))

-- `toTitleCase` of its package, and texts of the runtime: `s.toUpperCase()`,
-- `(+s).toLocaleString()`, and the text of a size in a unit, rounded as floating-point numbers.
pub record Texts : Type 0 where
  pub to_title_case : String → String
  pub to_upper_case : String → String
  pub to_locale_string : String → String
  pub size_in : String → String → String

-- The values of the enum `SearchCriteriaFields`: the keys of `previewSavedSearchArgs`.
abbrev pub search_criteria_fields : List String
search_criteria_fields =
    "acquireable" ∷ "additionalGeneIDs" ∷ "artistIDs" ∷ "artistSeriesIDs" ∷ "atAuction"
    ∷ "attributionClass" ∷ "colors" ∷ "height" ∷ "inquireableOnly" ∷ "locationCities"
    ∷ "majorPeriods" ∷ "materialsTerms" ∷ "offerable" ∷ "partnerIDs" ∷ "priceRange" ∷ "sizes"
    ∷ "width" ∷ []

abbrev pub is_nonempty : List String → Bool
is_nonempty [] = false
is_nonempty (x ∷ xs) = true

unfoldable pub search_criteria_labels_to_return : List String → List String → Outcome (List String)
search_criteria_labels_to_return only except =
    if is_nonempty only && is_nonempty except
    then failed only_and_except
    else let chosen =
        if is_nonempty only
        then keep (λ label. includes only label) search_criteria_fields
        else search_criteria_fields in
      done
        (if is_nonempty except then keep (λ label. not (includes except label)) chosen else chosen)

abbrev pub default_length_unit_preference : String
default_length_unit_preference = "in"

abbrev pub or_default : Option String → String → String
or_default none d = d
or_default (some s) d = if non_empty s then s else d

unfoldable pub get_preferred_metric : Option (Outcome (Option String)) → Outcome String
get_preferred_metric none = done default_length_unit_preference
get_preferred_metric (some me) =
    and_then me (λ preference. done (or_default preference default_length_unit_preference))

abbrev pub label : String → Option String → String → String → SearchCriteriaLabel
label name display_value value field = record {
  name = name;
  display_value = display_value;
  value = value;
  field = field;
}

-- A label to each value, of which some may fail: `Promise.all`, or a loop that may throw.
abbrev pub all_labels :
    (String → Outcome SearchCriteriaLabel) → List String → Outcome (List SearchCriteriaLabel)
all_labels make [] = done []
all_labels make (value ∷ values) =
    and_then (make value) (λ l. and_then (all_labels make values) (λ ls. done (l ∷ ls)))

unfoldable pub get_artist_labels :
    List String → (String → Outcome (Option String)) → Outcome (List SearchCriteriaLabel)
get_artist_labels artist_ids artist_loader =
    all_labels
      (λ id. and_then (artist_loader id) (λ name. done (label "Artist" name id "artistIDs")))
      artist_ids

abbrev pub rarity_label : String → Option String → Outcome SearchCriteriaLabel
rarity_label attribution_class none = failed (unknown_class attribution_class)
rarity_label attribution_class (some name) =
    done (label "Rarity" (some name) attribution_class "attributionClass")

unfoldable pub get_rarity_labels : List String → Outcome (List SearchCriteriaLabel)
get_rarity_labels classes =
    all_labels (λ class. rarity_label class (value_at class attribution_classes)) classes

unfoldable pub get_medium_labels : List String → List SearchCriteriaLabel
get_medium_labels gene_ids =
    map (λ id. label "Medium" (some (get_artwork_medium_by_gene id)) id "additionalGeneIDs")
      gene_ids
