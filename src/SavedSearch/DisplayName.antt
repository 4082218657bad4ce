-- ===== src/SavedSearch/DisplayName.antt =====
-- The name that a saved search is given: src/schema/v2/previewSavedSearch/generateDisplayName.ts.
-- A label's value that is undefined is empty in the joined text.
use metaphysics.Common.{
  ℕ, ◌-◌, String, Bool, true, false, not, ◌&&◌, Option, List, [], ◌∷◌, ◌++◌, map, if◌then◌else◌,
  is_truthy, or_else, includes, str_eq, ◌<>◌, keep, take, join, length, ltb, decimal, is_some,
}
use metaphysics.SavedSearch.{
  Criteria, SearchCriteriaLabel, Outcome, done, and_then, Loaders, Texts,
  search_criteria_labels_to_return,
}
use metaphysics.SavedSearch.Labels.{resolve_search_criteria_labels}

abbrev pub artist_name : String
artist_name = "Artist"

abbrev pub prioritized_names : List String
prioritized_names = "Price" ∷ "Medium" ∷ "Rarity" ∷ []

abbrev pub other_names : List String
other_names =
    "Size" ∷ "Ways to Buy" ∷ "Material" ∷ "Artwork Location" ∷ "Time Period" ∷ "Color"
    ∷ "Galleries and Institutions" ∷ "Artist Series" ∷ []

abbrev pub labels_named : List SearchCriteriaLabel → String → List SearchCriteriaLabel
labels_named labels name = keep (λ (l : SearchCriteriaLabel). str_eq name l.name) labels

abbrev pub is_filled : List SearchCriteriaLabel → Bool
is_filled [] = false
is_filled (l ∷ labels) = true

-- `allLabels`
unfoldable pub grouped_labels : List SearchCriteriaLabel → List (List SearchCriteriaLabel)
grouped_labels labels =
    keep is_filled (map (labels_named labels) (artist_name ∷ (prioritized_names ++ other_names)))

unfoldable pub useable_labels : List SearchCriteriaLabel → List (List SearchCriteriaLabel)
unfolding grouped_labels
useable_labels labels = take 4 (grouped_labels labels)

abbrev pub display_values : List (List SearchCriteriaLabel) → List String
display_values groups =
    map
      (λ (labels : List SearchCriteriaLabel).
        join " or " (map (λ (l : SearchCriteriaLabel). or_else l.display_value "") labels))
      groups

-- `[artist, others.join(", ")].join(others.length > 0 ? " — " : "")`, where the first value goes
-- before the others.
abbrev pub artist_and_others : List String → String
artist_and_others [] = ""
artist_and_others (artist ∷ []) = artist
artist_and_others (artist ∷ other ∷ others) = artist <> (" — " <> join ", " (other ∷ others))

unfoldable pub remaining_count : List SearchCriteriaLabel → ℕ
unfolding grouped_labels useable_labels
remaining_count labels = length (grouped_labels labels) - length (useable_labels labels)

unfoldable pub name_of_labels : List String → List SearchCriteriaLabel → String
unfolding useable_labels remaining_count
name_of_labels chosen labels =
    let values = display_values (useable_labels labels) in
    let result =
      if includes chosen "artistIDs" then artist_and_others values else join ", " values in
    let rest = remaining_count labels in
    if ltb 0 rest then result <> (" + " <> (decimal rest <> " more")) else result

-- The saved search: its criteria, and the name of its settings, by either name of the field.
pub record SavedSearchParent : Type 0 where
  pub criteria : Criteria
  pub user_alert_settings_name : Option String
  pub settings_name : Option String

module _ (texts : Texts) (loaders : Loaders) where
  unfoldable pub resolved_name :
      Criteria → Option (List String) → Option (List String) → Outcome String
  unfolding name_of_labels
  resolved_name criteria only except =
      and_then
        (resolve_search_criteria_labels texts loaders criteria (or_else only [])
          (or_else except []))
        (λ labels.
          and_then (search_criteria_labels_to_return (or_else only []) (or_else except []))
            (λ chosen. done (name_of_labels chosen labels)))

  unfoldable pub generate_display_name :
      SavedSearchParent → Option (List String) → Option (List String) → Outcome String
  unfolding resolved_name
  generate_display_name parent only except =
      let resolved = resolved_name parent.criteria only except in
      if not (is_some only) && not (is_some except)
      then if is_truthy parent.user_alert_settings_name
        then done (or_else parent.user_alert_settings_name "")
        else if is_truthy parent.settings_name
        then done (or_else parent.settings_name "")
        else resolved
      else resolved
