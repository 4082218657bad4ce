-- ===== src/SavedSearch/Suggestions.antt =====
-- How many filters are suggested.
use metaphysics.Common.{
  ℕ, ◌+◌, ◌≤◌, String, Option, none, some, List, [], ◌∷◌, ◌++◌, map, ◌≡◌, refl, inl, inr, arith,
  length, take, keep, find, non_empty, Bool-cases, if◌then◌else◌,
}
use metaphysics.Common.Uniq.{length-take_bound}
use metaphysics.SavedSearch.Tables.{
  value_at, attribution_classes, Entry, Medium, artwork_mediums, is_text,
}
use metaphysics.SavedSearch.{SearchCriteriaLabel, Outcome, rarity_label, get_rarity_labels}
use metaphysics.SavedSearch.Counted.{
  AtMost, length-append, length-map, length-keep, AtMost-and_then, AtMost-bind, all_labels-AtMost,
  Holds, Holds-bind, Holds-any, Holds-both, HasField, of_field, of_field-parts, of_field-all,
  of_field-other, keep-HasField, all_labels-HasField,
}
use metaphysics.SavedSearch.Suggested.{
  Source, Aggregations, entry_key, get_most_popular_options, is_allowed, rarity_options,
  medium_label, medium_labels, series_entry, series_of_artist, series_of_artwork, is_artwork_source,
  source_id, series_options, all_options,
}

most_popular_bound :
    (aggregation : Option (List Entry)) → length (get_most_popular_options aggregation) ≤ 2
unfolding get_most_popular_options
most_popular_bound none = omega arith
most_popular_bound (some entries) = length-take_bound 2 (map entry_key entries)

rarity_options-AtMost : (aggregation : Option (List Entry)) → AtMost 2 (rarity_options aggregation)
unfolding rarity_options get_rarity_labels
rarity_options-AtMost aggregation =
    let popular = get_most_popular_options aggregation in
    let two = most_popular_bound aggregation in
    let kept = length-keep non_empty popular in
    AtMost-bind (length (keep non_empty popular)) 2 _ _
      (all_labels-AtMost _ (keep non_empty popular))
      (λ labels b. let allowed = length-keep is_allowed labels in omega arith)

medium_label-bound : (value : String) (m : Option Medium) → length (medium_label value m) ≤ 1
medium_label-bound value none = omega arith
medium_label-bound value (some m) = omega arith

medium_labels-bound : (values : List String) → length (medium_labels values) ≤ length values
medium_labels-bound [] = omega arith
medium_labels-bound (value ∷ values) =
    let rest = medium_labels-bound values in
    let found = find (λ (m : Medium). is_text m.medium_filter_gene_slug value) artwork_mediums in
    let one = medium_label-bound value found in
    let whole = length-append (medium_label value found) (medium_labels values) in
    elim (Bool-cases (non_empty value)) [ inl e ↦ rw e (omega arith) | inr e ↦ rw e (omega arith) ]

series_bound : (n : ℕ) (series : List Entry) → length (map series_entry (take n series)) ≤ n
series_bound n series =
    let bound = length-take_bound n series in
    let same = length-map series_entry (take n series) in omega arith

rarity_label-HasField :
    (class : String) (name : Option String)
    → Holds (λ (l : SearchCriteriaLabel). l.field ≡ "attributionClass") (rarity_label class name)
rarity_label-HasField class none = tt
rarity_label-HasField class (some name) = refl

rarity_options-HasField :
    (aggregation : Option (List Entry))
    → Holds (HasField "attributionClass") (rarity_options aggregation)
unfolding rarity_options get_rarity_labels
rarity_options-HasField aggregation =
    Holds-bind (HasField "attributionClass") (HasField "attributionClass") _ _
      (all_labels-HasField "attributionClass" _
        (keep non_empty (get_most_popular_options aggregation))
        (λ class. rarity_label-HasField class (value_at class attribution_classes)))
      (λ labels h. keep-HasField "attributionClass" is_allowed labels h)

medium_labels-HasField :
    (values : List String) → HasField "additionalGeneIDs" (medium_labels values)
medium_labels-HasField [] = tt
medium_labels-HasField (value ∷ values) = elim (Bool-cases (non_empty value)) [
  | inl e ↦ rw e (
      with_label (find (λ (m : Medium). is_text m.medium_filter_gene_slug value) artwork_mediums)
        (medium_labels-HasField values))
  | inr e ↦ rw e (medium_labels-HasField values)
]
  where
    with_label :
        (m : Option Medium)
        → HasField "additionalGeneIDs" (medium_labels values)
        → HasField "additionalGeneIDs" (medium_label value m ++ medium_labels values)
    with_label none h = h
    with_label (some m) h = (refl, h)

series-HasField : (series : List Entry) → HasField "artistSeriesIDs" (map series_entry series)
series-HasField [] = tt
series-HasField ((slug, name) ∷ series) = (refl, series-HasField series)

abbrev series_limit : Option Source → ℕ
series_limit source = if is_artwork_source source then 5 else 2

-- At most two rarities, two mediums, and two series or, for an artwork, five; and no others.
abbrev pub IsLimited : Option Source → List SearchCriteriaLabel → Type 0
IsLimited source labels =
    (of_field "attributionClass" labels ≤ 2)
    × (of_field "additionalGeneIDs" labels ≤ 2)
    × (of_field "artistSeriesIDs" labels ≤ series_limit source)
    × (length labels
        ≡ of_field "attributionClass" labels
          + of_field "additionalGeneIDs" labels
          + of_field "artistSeriesIDs" labels)

module _ (filter : List String → Outcome Aggregations) (load : String → Outcome (List Entry)) where
  series_of_artwork-AtMost : (id : Option String) → AtMost 5 (series_of_artwork load id)
  unfolding series_of_artwork
  series_of_artwork-AtMost none = omega arith
  series_of_artwork-AtMost (some id) =
      AtMost-and_then 5 (load id) _ (λ series. series_bound 5 series)

  series_of_artist-bound : (series : Option (List Entry)) → length (series_of_artist series) ≤ 2
  unfolding series_of_artist
  series_of_artist-bound none = omega arith
  series_of_artist-bound (some series) = series_bound 2 series

  series_options-AtMost :
      (source : Option Source) (aggregations : Aggregations)
      → AtMost (series_limit source) (series_options filter load source aggregations)
  unfolding series_options
  series_options-AtMost source aggregations = elim (Bool-cases (is_artwork_source source)) [
    | inl e ↦ rw e (series_of_artwork-AtMost (source_id source))
    | inr e ↦ rw e (series_of_artist-bound aggregations.artist_series)
  ]

  series_options-HasField :
      (source : Option Source) (aggregations : Aggregations)
      → Holds (HasField "artistSeriesIDs") (series_options filter load source aggregations)
  unfolding series_options series_of_artwork series_of_artist
  series_options-HasField source aggregations = elim (Bool-cases (is_artwork_source source)) [
    | inl e ↦ rw e (of_artwork (source_id source))
    | inr e ↦ rw e (of_artist aggregations.artist_series)
  ]
    where
      of_artwork :
          (id : Option String) → Holds (HasField "artistSeriesIDs") (series_of_artwork load id)
      of_artwork none = tt
      of_artwork (some id) =
          Holds-bind (λ (series : List Entry). Unit {0}) (HasField "artistSeriesIDs") (load id) _
            (Holds-any (load id)) (λ series h. series-HasField (take 5 series))

      of_artist :
          (series : Option (List Entry)) → HasField "artistSeriesIDs" (series_of_artist series)
      of_artist none = tt
      of_artist (some series) = series-HasField (take 2 series)

  -- What is suggested, where nothing fails, is at most two rarities, two mediums and two series of the
  -- artists, or for an artwork five of the artwork, and nothing else.
  pub all_options-IsLimited :
      (source : Option Source) (aggregations : Aggregations)
      → Holds (IsLimited source) (all_options filter load source aggregations)
  unfolding all_options
  all_options-IsLimited source aggregations =
      let popular = get_most_popular_options aggregations.medium in
      let two = most_popular_bound aggregations.medium in
      let mediums = medium_labels-bound popular in
      let genes = medium_labels-HasField popular in
      Holds-bind
        (λ (ls : List SearchCriteriaLabel). (length ls ≤ 2) × HasField "attributionClass" ls) _
        (rarity_options aggregations.attribution_class) _
        (Holds-both 2 _ _ (rarity_options-AtMost aggregations.attribution_class)
          (rarity_options-HasField aggregations.attribution_class))
        (λ rarities r.
          Holds-bind
            (λ (ls : List SearchCriteriaLabel).
              (length ls ≤ series_limit source) × HasField "artistSeriesIDs" ls)
            _ (series_options filter load source aggregations) _
            (Holds-both (series_limit source) _ _ (series_options-AtMost source aggregations)
              (series_options-HasField source aggregations))
            (λ series b.
              let inner = length-append (medium_labels popular) series in
              let outer = length-append rarities (medium_labels popular ++ series) in
              let parts =
                λ (f : String). of_field-parts f rarities (medium_labels popular) series in
              (
                omega (
                  arith,
                  parts "attributionClass",
                  of_field-all _ rarities r.1,
                  of_field-other "additionalGeneIDs" "attributionClass" (medium_labels popular) refl
                      genes,
                  of_field-other "artistSeriesIDs" "attributionClass" series refl b.1,
                ),
                omega (
                  arith,
                  parts "additionalGeneIDs",
                  of_field-all _ (medium_labels popular) genes,
                  of_field-other "attributionClass" "additionalGeneIDs" rarities refl r.1,
                  of_field-other "artistSeriesIDs" "additionalGeneIDs" series refl b.1,
                ),
                omega (
                  arith,
                  parts "artistSeriesIDs",
                  of_field-all _ series b.1,
                  of_field-other "attributionClass" "artistSeriesIDs" rarities refl r.1,
                  of_field-other "additionalGeneIDs" "artistSeriesIDs" (medium_labels popular) refl
                      genes,
                ),
                omega (
                  arith,
                  parts "attributionClass",
                  of_field-all _ rarities r.1,
                  of_field-other "additionalGeneIDs" "attributionClass" (medium_labels popular) refl
                      genes,
                  of_field-other "artistSeriesIDs" "attributionClass" series refl b.1,
                  parts "additionalGeneIDs",
                  of_field-all _ (medium_labels popular) genes,
                  of_field-other "attributionClass" "additionalGeneIDs" rarities refl r.1,
                  of_field-other "artistSeriesIDs" "additionalGeneIDs" series refl b.1,
                  parts "artistSeriesIDs",
                  of_field-all _ series b.1,
                  of_field-other "attributionClass" "artistSeriesIDs" rarities refl r.1,
                  of_field-other "additionalGeneIDs" "artistSeriesIDs" (medium_labels popular) refl
                      genes,
                ),
              )))
