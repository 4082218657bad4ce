-- ===== src/FilterArtworks.antt =====
-- The filter of artworks: the resolver of src/schema/v2/filterArtworksConnection.ts, with
-- `removeNulls` and `removeEmptyValues` of src/lib/helpers.ts.
-- The arguments and options are objects of JSON; a number below zero is taken as 0, which the checks
-- treat alike. A list of aggregations is its texts. The page, the size, the offset and the aggregations of
-- the options, which the code sets last, stand beside the other fields; what a field's parent adds
-- to the options holds none of them.
pub mod Checks
pub mod Query
pub mod Connection
pub mod Lookups
pub mod Public
pub mod Renamed
pub mod Asked
pub mod Refused
pub mod Answered
mod Tests
use metaphysics.Common.{
  ℕ, String, Bool, true, false, ◌||◌, not, Option, none, some, List, [], ◌∷◌, if◌then◌else◌, str_eq,
  or_else,
}
use metaphysics.Common.Json.{
  Json, undefined, null, bool, number, text, array, object, Items, nil, cons, Fields, empty, field,
  lookup, spread, omit_field,
}

-- The arguments that `convertFilterArgs` renames, with their new names.
abbrev pub renamed_args : List (String × String)
renamed_args =
    ("additionalGeneIDs", "additional_gene_ids")
    ∷ ("aggregationPartnerCities", "aggregation_partner_cities")
    ∷ ("artistID", "artist_id")
    ∷ ("artistIDs", "artist_ids")
    ∷ ("artistNationalities", "artist_nationalities")
    ∷ ("artistSeriesID", "artist_series_id")
    ∷ ("artistSeriesIDs", "artist_series_ids")
    ∷ ("artsyListing", "artsy_listing")
    ∷ ("atAuction", "at_auction")
    ∷ ("attributionClass", "attribution_class")
    ∷ ("certificateOfAuthenticity", "certificate_of_authenticity")
    ∷ ("completenessTier", "completeness_tier")
    ∷ ("dimensionRange", "dimension_range")
    ∷ ("excludeArtworkIDs", "exclude_artwork_ids")
    ∷ ("extraAggregationGeneIDs", "extra_aggregation_gene_ids")
    ∷ ("forSale", "for_sale")
    ∷ ("geneID", "gene_id")
    ∷ ("geneIDs", "gene_ids")
    ∷ ("artworkIDs", "ids")
    ∷ ("importSources", "import_sources")
    ∷ ("includeAllJSON", "include_all_json")
    ∷ ("includeArtworksByFollowedArtists", "include_artworks_by_followed_artists")
    ∷ ("includeMediumFilterInAggregation", "include_medium_filter_in_aggregation")
    ∷ ("includeNonArtsyListed", "include_non_artsy_listed")
    ∷ ("includeUnpublished", "include_unpublished")
    ∷ ("inquireableOnly", "inquireable_only")
    ∷ ("keywordMatchExact", "keyword_match_exact")
    ∷ ("locationCities", "location_cities")
    ∷ ("locationId", "location_id")
    ∷ ("majorPeriods", "major_periods")
    ∷ ("marketingCollectionID", "marketing_collection_id")
    ∷ ("materialsTerms", "materials_terms")
    ∷ ("partnerCities", "partner_cities")
    ∷ ("partnerID", "partner_id")
    ∷ ("partnerIDs", "partner_ids")
    ∷ ("partnerListID", "partner_list_id")
    ∷ ("showID", "partner_show_id")
    ∷ ("priceRange", "price_range")
    ∷ ("saleID", "sale_id")
    ∷ ("sizes", "sizes")
    ∷ ("tagID", "tag_id")
    ∷ ("variant", "variant")
    ∷ ("hybridNeuralK", "hybrid_neural_k")
    ∷ ("hybridWeights", "hybrid_weights")
    ∷ ("hybridPaginationDepth", "hybrid_pagination_depth")
    ∷ ("viewingRoomID", "viewing_room_id")
    ∷ ("visibilityLevel", "visibility_level")
    ∷ []

abbrev pub renamed : List (String × String) → Fields → Fields
renamed [] args = empty
renamed ((name, new_name) ∷ names) args = field new_name (lookup name args) (renamed names args)

-- `..._options`
abbrev pub other_args : List (String × String) → Fields → Fields
other_args [] args = args
other_args ((name, new_name) ∷ names) args = omit_field name (other_args names args)

unfoldable pub convert_filter_args : Fields → Fields
convert_filter_args args = spread (renamed renamed_args args) (other_args renamed_args args)

-- `== null`
abbrev pub is_nullish : Json → Bool
is_nullish undefined = true
is_nullish null = true
is_nullish _ = false

abbrev pub is_empty_array : Json → Bool
is_empty_array (array nil) = true
is_empty_array _ = false

-- The keys whose values meet a test are deleted.
abbrev pub delete_where : (Json → Bool) → Fields → Fields
delete_where test empty = empty
delete_where test (field name value fields) =
    let rest = delete_where test fields in
    if test value then omit_field name rest else field name value rest

unfoldable pub remove_nulls : Fields → Fields
remove_nulls fields = delete_where is_nullish fields

unfoldable pub remove_empty_values : Fields → Fields
remove_empty_values fields =
    delete_where (λ (value : Json). is_nullish value || is_empty_array value) fields

-- The arguments of the root with those of the input over them.
unfoldable pub filter_options : Fields → Option Fields → Fields
unfolding convert_filter_args remove_empty_values
filter_options root input =
    spread (remove_empty_values (convert_filter_args root))
      (remove_empty_values (convert_filter_args (or_else input empty)))
