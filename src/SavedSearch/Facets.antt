-- ===== src/SavedSearch/Facets.antt =====
-- The labels of the single facets, from prices on: src/schema/v2/previewSavedSearch/searchCriteriaLabel.ts.
use metaphysics.Common.{
  String, Bool, true, false, Option, none, some, List, [], ◌∷◌, ◌++◌, map, if◌then◌else◌, non_empty,
  or_else, str_eq, ◌<>◌, shown, split, get_elem?,
}
use metaphysics.SavedSearch.Tables.{
  value_at, color_names, sizes_in_cm, sizes_in_inches, period_texts,
}
use metaphysics.SavedSearch.{
  Criteria, SearchCriteriaLabel, Texts, Outcome, done, failed, unknown_color, and_then, label,
  all_labels,
}

module _ (texts : Texts) where
  open texts use {to_title_case, to_upper_case, to_locale_string, size_in}

  abbrev pub price_part : String → String
  price_part value = if str_eq value "*" then value else to_locale_string value

  -- The text of a range of prices, of which the second part may be missing.
  abbrev pub price_text : Option String → Option String → String
  price_text min max =
      if str_eq (shown min) "*"
      then "$0–$" <> shown max
      else if str_eq (shown max) "*"
      then "$" <> (shown min <> "+")
      else "$" <> (shown min <> ("–$" <> shown max))

  unfoldable pub get_price_label : Option String → List SearchCriteriaLabel
  get_price_label none = []
  get_price_label (some price_range) =
      let parts = map price_part (split b'-' price_range) in
      if non_empty price_range
      then label "Price" (some (price_text (get_elem? parts 0) (get_elem? parts 1))) price_range
          "priceRange"
        ∷ []
      else []

  unfoldable pub get_size_labels : List String → String → List SearchCriteriaLabel
  get_size_labels sizes metric =
      let table = if str_eq metric "cm" then sizes_in_cm else sizes_in_inches in
      map (λ size. label "Size" (value_at (to_upper_case size) table) (to_upper_case size) "sizes")
        sizes

  abbrev pub size_part : String → String → String
  size_part metric s = if str_eq s "*" then s else size_in metric s

  abbrev pub size_text : Option String → Option String → String
  size_text min max =
      if str_eq (shown max) "*"
      then "from " <> shown min
      else if str_eq (shown min) "*"
      then "to " <> shown max
      else shown min <> ("–" <> shown max)

  unfoldable pub extract_size_label : String → String → String → String
  extract_size_label prefix value metric =
      let parts = map (size_part metric) (split b'-' value) in
      prefix <> (": " <> (size_text (get_elem? parts 0) (get_elem? parts 1) <> (" " <> metric)))

  abbrev pub custom_size_label : String → String → String → Option String → List SearchCriteriaLabel
  custom_size_label metric prefix field none = []
  custom_size_label metric prefix field (some value) =
      if non_empty value
      then label "Size" (some (extract_size_label prefix value metric)) value field ∷ []
      else []

  unfoldable pub get_custom_size_labels :
      Option String → Option String → String → List SearchCriteriaLabel
  get_custom_size_labels height width metric =
      custom_size_label metric "w" "width" width ++ custom_size_label metric "h" "height" height

  unfoldable pub get_material_labels : List String → List SearchCriteriaLabel
  get_material_labels terms =
      map (λ term. label "Material" (some (to_title_case term)) term "materialsTerms") terms

abbrev pub way_label : Bool → String → String → List SearchCriteriaLabel
way_label false text field = []
way_label true text field = label "Ways to Buy" (some text) "true" field ∷ []

unfoldable pub get_ways_to_buy_labels : Criteria → List SearchCriteriaLabel
get_ways_to_buy_labels c =
    way_label c.acquireable "Purchase" "acquireable"
    ++ (way_label c.at_auction "Bid" "atAuction"
        ++ (way_label c.inquireable_only "Contact Gallery" "inquireableOnly"
            ++ way_label c.offerable "Make Offer" "offerable"))

unfoldable pub get_location_labels : List String → List SearchCriteriaLabel
get_location_labels cities =
    map (λ city. label "Artwork Location" (some city) city "locationCities") cities

unfoldable pub get_period_labels : List String → List SearchCriteriaLabel
get_period_labels periods =
    map
      (λ period.
        label "Time Period" (some (or_else (value_at period period_texts) period)) period
          "majorPeriods")
      periods

abbrev pub color_label : String → Option String → Outcome SearchCriteriaLabel
color_label value none = failed (unknown_color value)
color_label value (some name) = done (label "Color" (some name) value "colors")

unfoldable pub get_color_labels : List String → Outcome (List SearchCriteriaLabel)
get_color_labels colors =
    all_labels (λ value. color_label value (value_at value color_names)) colors

unfoldable pub get_partner_labels :
    List String → (String → Outcome (Option String)) → Outcome (List SearchCriteriaLabel)
get_partner_labels partner_ids partner_loader =
    all_labels
      (λ id.
        and_then (partner_loader id)
          (λ name. done (label "Galleries and Institutions" name id "partnerIDs")))
      partner_ids
