-- ===== src/SavedSearch/Chosen.antt =====
-- Which labels a saved search gets: those of the chosen fields and of their groups.
use metaphysics.Common.{
  non_empty, String, Bool, true, false, ◌||◌, Option, none, some, List, [], ◌∷◌, ◌≡◌, if◌then◌else◌,
  includes, str_eq, All,
}
use mathlib.Core.Path.{subst}
use metaphysics.SavedSearch.{
  Criteria, SearchCriteriaLabel, Failure, Outcome, done, failed, and_then, Loaders, Texts,
  search_criteria_labels_to_return, get_preferred_metric, get_artist_labels, get_rarity_labels,
  get_medium_labels, rarity_label,
}
use metaphysics.SavedSearch.Facets.{
  get_price_label, get_size_labels, get_custom_size_labels, get_ways_to_buy_labels,
  get_material_labels, get_location_labels, get_period_labels, get_color_labels, get_partner_labels,
  color_label, custom_size_label, way_label,
}
use metaphysics.SavedSearch.Collected.{
  One, Labels, append-All, map-All, join-Labels, collect-Labels, all_labels-Labels, answered-One,
}
use metaphysics.SavedSearch.Labels.{
  is_missing, Group, collect, label_groups, resolve_search_criteria_labels, series_label,
  load_series, get_artist_series_labels,
}

abbrev pub is_size : String → Bool
is_size field = str_eq field "width" || str_eq field "height"

abbrev pub is_way : String → Bool
is_way field = includes ("acquireable" ∷ "atAuction" ∷ "inquireableOnly" ∷ "offerable" ∷ []) field

-- A field is chosen, or one of its group: width and height are a group, and the four ways to buy.
abbrev pub is_chosen : List String → String → Bool
is_chosen chosen field =
    if is_size field
    then includes chosen "width" || includes chosen "height"
    else if is_way field
    then includes chosen "acquireable"
      || (includes chosen "atAuction"
          || (includes chosen "inquireableOnly" || includes chosen "offerable"))
    else includes chosen field

module _ (chosen : List String) where
  abbrev Chosen : SearchCriteriaLabel → Type 0
  Chosen l = is_chosen chosen l.field ≡ true

  artist-Chosen :
      (ids : List String) (loader : String → Outcome (Option String))
      → includes chosen "artistIDs" ≡ true
      → Labels Chosen (get_artist_labels ids loader)
  unfolding get_artist_labels
  artist-Chosen ids loader h =
      all_labels-Labels Chosen _ ids (λ id. answered-One Chosen (loader id) _ (λ name. h))

  partner-Chosen :
      (ids : List String) (loader : String → Outcome (Option String))
      → includes chosen "partnerIDs" ≡ true
      → Labels Chosen (get_partner_labels ids loader)
  unfolding get_partner_labels
  partner-Chosen ids loader h =
      all_labels-Labels Chosen _ ids (λ id. answered-One Chosen (loader id) _ (λ name. h))

  rarity_label-One :
      (class : String) (name : Option String)
      → includes chosen "attributionClass" ≡ true
      → One Chosen (rarity_label class name)
  rarity_label-One class none h = tt
  rarity_label-One class (some name) h = h

  color_label-One :
      (value : String) (name : Option String)
      → includes chosen "colors" ≡ true
      → One Chosen (color_label value name)
  color_label-One value none h = tt
  color_label-One value (some name) h = h

  missing-Labels : (b : Bool) (e : Failure) → Labels Chosen (if b then done [] else failed e)
  missing-Labels true e = tt
  missing-Labels false e = tt

  series_label-Labels :
      (id : String) (answer : Outcome (Option String))
      → includes chosen "artistSeriesIDs" ≡ true
      → Labels Chosen (series_label id answer)
  series_label-Labels id (done title) h = (h, tt)
  series_label-Labels id (failed e) h = missing-Labels (is_missing e) e

  load_series-Labels :
      (loader : String → Outcome (Option String)) (ids : List String)
      → includes chosen "artistSeriesIDs" ≡ true
      → Labels Chosen (load_series loader ids)
  load_series-Labels loader [] h = tt
  load_series-Labels loader (id ∷ ids) h =
      join-Labels Chosen (series_label id (loader id)) (load_series loader ids)
        (series_label-Labels id (loader id) h) (load_series-Labels loader ids h)

  series-Chosen :
      (ids : List String) (loader : Option (String → Outcome (Option String)))
      → includes chosen "artistSeriesIDs" ≡ true
      → Labels Chosen (get_artist_series_labels ids loader)
  unfolding get_artist_series_labels
  series-Chosen ids none h = tt
  series-Chosen ids (some loader) h = load_series-Labels loader ids h

  -- At most one label, which is there under a test.
  one_label-All :
      (b : Bool) (l : SearchCriteriaLabel) → Chosen l → All Chosen (if b then l ∷ [] else [])
  one_label-All true l h = (h, tt)
  one_label-All false l h = tt

  price-Chosen :
      (texts : Texts) (range : Option String)
      → includes chosen "priceRange" ≡ true
      → All Chosen (get_price_label texts range)
  unfolding get_price_label
  price-Chosen texts none h = tt
  price-Chosen texts (some range) h = one_label-All (non_empty range) _ h

  size-Chosen :
      (texts : Texts) (metric prefix field : String) (value : Option String)
      → is_chosen chosen field ≡ true
      → All Chosen (custom_size_label texts metric prefix field value)
  size-Chosen texts metric prefix field none h = tt
  size-Chosen texts metric prefix field (some value) h = one_label-All (non_empty value) _ h

  way-Chosen :
      (b : Bool) (text field : String)
      → is_chosen chosen field ≡ true
      → All Chosen (way_label b text field)
  way-Chosen false text field h = tt
  way-Chosen true text field h = (h, tt)

  ways-Chosen :
      (c : Criteria) → is_chosen chosen "acquireable" ≡ true → All Chosen (get_ways_to_buy_labels c)
  unfolding get_ways_to_buy_labels
  ways-Chosen c h =
      append-All Chosen (way_label c.acquireable "Purchase" "acquireable") _
        (way-Chosen c.acquireable "Purchase" "acquireable" h)
        (append-All Chosen (way_label c.at_auction "Bid" "atAuction") _
          (way-Chosen c.at_auction "Bid" "atAuction" h)
          (append-All Chosen (way_label c.inquireable_only "Contact Gallery" "inquireableOnly") _
            (way-Chosen c.inquireable_only "Contact Gallery" "inquireableOnly" h)
            (way-Chosen c.offerable "Make Offer" "offerable" h)))

  groups-Chosen :
      (texts : Texts) (loaders : Loaders) (c : Criteria) (metric : String)
      → All
          (λ (g : Group). g.wanted ≡ true → Labels Chosen g.labels)
          (label_groups texts loaders c chosen metric)
  unfolding label_groups get_rarity_labels get_color_labels get_medium_labels get_size_labels
      get_custom_size_labels get_material_labels get_location_labels get_period_labels
  groups-Chosen texts loaders c metric = (
    λ h. artist-Chosen c.artist_ids loaders.artist_loader h,
    (
      λ h. all_labels-Labels Chosen _ c.attribution_class (λ x. rarity_label-One x _ h),
      (
        λ h. map-All Chosen _ c.additional_gene_ids (λ x. h),
        (
          λ h. price-Chosen texts c.price_range h,
          (
            λ h. map-All Chosen _ c.sizes (λ x. h),
            (
              λ h.
                  append-All Chosen (custom_size_label texts metric "w" "width" c.width) _
                    (size-Chosen texts metric "w" "width" c.width h)
                    (size-Chosen texts metric "h" "height" c.height h),
              (
                λ h. ways-Chosen c h,
                (
                  λ h. map-All Chosen _ c.materials_terms (λ x. h),
                  (
                    λ h. map-All Chosen _ c.location_cities (λ x. h),
                    (
                      λ h. map-All Chosen _ c.major_periods (λ x. h),
                      (
                        λ h. all_labels-Labels Chosen _ c.colors (λ x. color_label-One x _ h),
                        (
                          λ h. partner-Chosen c.partner_ids loaders.partner_loader h,
                          (
                            λ h. series-Chosen c.artist_series_ids loaders.artist_series_loader h,
                            tt,
                          ),
                        ),
                      ),
                    ),
                  ),
                ),
              ),
            ),
          ),
        ),
      ),
    ),
  )

chosen-Labels :
    (texts : Texts) (loaders : Loaders) (c : Criteria) (chosen : List String)
    (metric : Outcome String)
    → Labels
        (λ (l : SearchCriteriaLabel). is_chosen chosen l.field ≡ true)
        (and_then metric (λ metric. collect (label_groups texts loaders c chosen metric)))
chosen-Labels texts loaders c chosen (done metric) =
    collect-Labels _ _ (groups-Chosen chosen texts loaders c metric)
chosen-Labels texts loaders c chosen (failed e) = tt

-- The labels that are returned are of the fields that `only` and `except` choose, or of a group
-- with one of them (width and height, or the four ways to buy), whatever the loaders answer.
pub labels-chosen :
    (texts : Texts) (loaders : Loaders) (c : Criteria) (only except chosen : List String)
    (labels : List SearchCriteriaLabel)
    → search_criteria_labels_to_return only except ≡ done chosen
    → resolve_search_criteria_labels texts loaders c only except ≡ done labels
    → All (λ (l : SearchCriteriaLabel). is_chosen chosen l.field ≡ true) labels
unfolding resolve_search_criteria_labels
labels-chosen texts loaders c only except chosen labels h k =
    subst (Labels (λ (l : SearchCriteriaLabel). is_chosen chosen l.field ≡ true)) k
      (rw h (chosen-Labels texts loaders c chosen (get_preferred_metric loaders.me_loader)))
