-- ===== src/SavedSearch/Labels.antt =====
-- The labels of a saved search: `getArtistSeriesLabels` and `resolveSearchCriteriaLabels` of
-- src/schema/v2/previewSavedSearch/searchCriteriaLabel.ts.
use metaphysics.Common.{
  String, Bool, false, ◌||◌, Option, none, some, List, [], ◌∷◌, ◌++◌, ◌==◌, if◌then◌else◌, includes,
}
use metaphysics.SavedSearch.{
  Criteria, SearchCriteriaLabel, Failure, load_error, Outcome, done, failed, and_then, Loaders,
  Texts, label, search_criteria_labels_to_return, get_preferred_metric, get_artist_labels,
  get_rarity_labels, get_medium_labels,
}
use metaphysics.SavedSearch.Facets.{
  get_price_label, get_size_labels, get_custom_size_labels, get_ways_to_buy_labels,
  get_material_labels, get_location_labels, get_period_labels, get_color_labels, get_partner_labels,
}

abbrev pub is_missing : Failure → Bool
is_missing (load_error (some status)) = status == 404
is_missing _ = false

-- One artist series: a series that is not found is skipped, and any other error is thrown again.
abbrev pub series_label : String → Outcome (Option String) → Outcome (List SearchCriteriaLabel)
series_label id (done title) = done (label "Artist Series" title id "artistSeriesIDs" ∷ [])
series_label id (failed e) = if is_missing e then done [] else failed e

abbrev pub load_series :
    (String → Outcome (Option String)) → List String → Outcome (List SearchCriteriaLabel)
load_series loader [] = done []
load_series loader (id ∷ ids) =
    and_then (series_label id (loader id))
      (λ ls. and_then (load_series loader ids) (λ rest. done (ls ++ rest)))

unfoldable pub get_artist_series_labels :
    List String → Option (String → Outcome (Option String)) → Outcome (List SearchCriteriaLabel)
get_artist_series_labels ids none = done []
get_artist_series_labels ids (some loader) = load_series loader ids

-- One `if` of the resolver: its condition and the labels that it pushes.
pub record Group : Type 0 where
  pub wanted : Bool
  pub labels : Outcome (List SearchCriteriaLabel)

abbrev pub group : Bool → Outcome (List SearchCriteriaLabel) → Group
group wanted labels = record { wanted = wanted; labels = labels }

-- The `if`s in order; the first failure ends them.
abbrev pub collect : List Group → Outcome (List SearchCriteriaLabel)
collect [] = done []
collect (g ∷ groups) =
    and_then (if g.wanted then g.labels else done [])
      (λ ls. and_then (collect groups) (λ rest. done (ls ++ rest)))

module _ (texts : Texts) where
  unfoldable pub label_groups : Loaders → Criteria → List String → String → List Group
  label_groups loaders c chosen metric =
      group (includes chosen "artistIDs") (get_artist_labels c.artist_ids loaders.artist_loader)
      ∷ group (includes chosen "attributionClass") (get_rarity_labels c.attribution_class)
      ∷ group (includes chosen "additionalGeneIDs") (done (get_medium_labels c.additional_gene_ids))
      ∷ group (includes chosen "priceRange") (done (get_price_label texts c.price_range))
      ∷ group (includes chosen "sizes") (done (get_size_labels texts c.sizes metric))
      ∷ group (includes chosen "width" || includes chosen "height")
          (done (get_custom_size_labels texts c.height c.width metric))
      ∷ group
          (includes chosen "acquireable"
            || (includes chosen "atAuction"
                || (includes chosen "inquireableOnly" || includes chosen "offerable")))
          (done (get_ways_to_buy_labels c))
      ∷ group (includes chosen "materialsTerms")
          (done (get_material_labels texts c.materials_terms))
      ∷ group (includes chosen "locationCities") (done (get_location_labels c.location_cities))
      ∷ group (includes chosen "majorPeriods") (done (get_period_labels c.major_periods))
      ∷ group (includes chosen "colors") (get_color_labels c.colors)
      ∷ group (includes chosen "partnerIDs")
          (get_partner_labels c.partner_ids loaders.partner_loader)
      ∷ group (includes chosen "artistSeriesIDs")
          (get_artist_series_labels c.artist_series_ids loaders.artist_series_loader)
      ∷ []

  unfoldable pub resolve_search_criteria_labels :
      Loaders → Criteria → List String → List String → Outcome (List SearchCriteriaLabel)
  unfolding label_groups
  resolve_search_criteria_labels loaders c only except =
      and_then (search_criteria_labels_to_return only except) (λ chosen.
        and_then (get_preferred_metric loaders.me_loader)
          (λ metric. collect (label_groups loaders c chosen metric)))
