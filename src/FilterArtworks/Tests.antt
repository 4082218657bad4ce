-- ===== src/FilterArtworks/Tests.antt =====
-- Requests that are refused, public ones, and one from the CMS.
use metaphysics.Common.{
  ℕ, true, false, ◌||◌, ◌&&◌, if◌then◌else◌, Option, none, some, [], ◌∷◌, ◌≡◌, refl,
}
use metaphysics.Common.Json.{
  bool, number, text, array, nil, cons, Fields, empty, field, lookup, truthy,
}
use metaphysics.Common.Int.{pos}
use metaphysics.Pagination.{create_page_cursors}
use metaphysics.Pagination.Args.{ConnectionOptions}
use metaphysics.FilterArtworks.{filter_options, convert_filter_args, remove_empty_values}
use metaphysics.FilterArtworks.Checks.{refusal}
use metaphysics.FilterArtworks.Query.{
  uncached, requested_authorized_filters, with_unpublished, gravity_fields, unauthenticated,
  filter_query, cleaned_fields,
}
use metaphysics.FilterArtworks.Connection.{
  array_length, Services, FilterConnection, threw, type_error, connected, filter_artworks, fetched,
}
use metaphysics.FilterArtworks.Public.{IsPublic, filter_query-IsPublic, filter_query-all_json}
use metaphysics.FilterArtworks.Renamed.{is_personal, sorts_by_price, filter_query-any_range}
use metaphysics.FilterArtworks.Answered.{IsCapped, filter_artworks-answers}

abbrev paging : ConnectionOptions Fields → Option ℕ × ℕ
paging options = (options.first, 0)

abbrev services : Services
services = record {
  relay = record { to_global_id = λ type id. id; string_of = λ n. "cursor" };
  get_paging_parameters = paging;
  parse_int = λ text. 0;
  is_cms_request = false;
  has_authenticated_loader = false;
  search = λ query. some (record { hits = "work" ∷ []; total = some 1 });
  partner_artworks_all = none;
  partner_list_artworks = none;
}

-- Unpublished works, all of their JSON, and works of followed artists.
abbrev private_options : Fields
private_options = field "first" (number 2) (
    field "include_unpublished" (bool true) (
      field "include_all_json" (bool true)
        (field "aggregations" (array (cons (text "followed_artists") nil)) empty)))

filter_query-IsPublic_example : IsPublic (filter_query paging false private_options empty)
filter_query-IsPublic_example = filter_query-IsPublic paging private_options empty refl refl

filter_query-all_json_example :
    ((filter_query paging false private_options empty).loader ≡ unauthenticated)
    × (lookup "include_all_json" (filter_query paging false private_options empty).gravity.rest
        ≡ lookup "include_all_json" private_options)
filter_query-all_json_example = filter_query-all_json paging private_options empty refl refl

-- The works of a sale in an open price range.
abbrev in_sale : Fields
in_sale =
    field "saleID" (text "evening")
      (field "priceRange" (text "*-*") (field "first" (number 3) empty))

nothing_own : is_personal (filter_options in_sale none) empty ≡ false
unfolding filter_options requested_authorized_filters with_unpublished gravity_fields
    remove_empty_values convert_filter_args
nothing_own = refl

filter_query-any_range_example :
    let options = filter_options in_sale none in
    let fields = cleaned_fields options empty in
    (filter_query paging true options empty).loader ≡ (
      if (sorts_by_price fields || truthy (lookup "price_range" fields))
        && truthy (lookup "sale_id" fields)
      then uncached
      else unauthenticated)
filter_query-any_range_example =
    filter_query-any_range paging true in_sale none empty nothing_own refl

refused_page :
    filter_artworks services empty none empty true
    ≡ threw "You must pass either `first`, `last` or `size`."
unfolding filter_artworks filter_options refusal remove_empty_values convert_filter_args
refused_page = refl

neural : Fields → Fields
neural fields = field "first" (number 1) (field "hybridNeuralK" (number 201) fields)

refused_variant :
    filter_artworks services (neural empty) none empty true
    ≡ threw
        "`hybridNeuralK`, `hybridWeights`, and `hybridPaginationDepth` can only be used when `variant` is \"hybrid\"."
unfolding filter_artworks filter_options refusal remove_empty_values convert_filter_args neural
refused_variant = refl

refused_neural :
    filter_artworks services
      (neural empty)
      (some (field "variant" (text "hybrid") empty))
      empty
      true
    ≡ threw "`hybridNeuralK` must be between 1 and 200."
unfolding filter_artworks filter_options refusal remove_empty_values convert_filter_args neural
refused_neural = refl

without_input :
    filter_artworks (record services { is_cms_request = true }) in_sale none empty true ≡ type_error
unfolding filter_artworks filter_options refusal remove_empty_values convert_filter_args fetched
without_input = refl

abbrev sale_connection : FilterConnection
sale_connection = record {
  query = filter_query paging false (filter_options in_sale none) empty;
  hits = "work" ∷ [];
  total = 1;
  page_cursors = create_page_cursors services.relay 1 3 1 5 (some 100);
  array_length = some 1;
  slice_start = pos 0;
  end_cursor = some "cursor";
}

in_sale_checked : refusal (filter_options in_sale none) ≡ none
unfolding refusal filter_options remove_empty_values convert_filter_args
in_sale_checked = refl

filter_artworks-answers_example :
    (c : FilterConnection) × (filter_artworks services in_sale none empty true ≡ connected c)
    × (c.hits ≡ "work" ∷ [])
    × (c.total ≡ 1)
    × IsCapped 1
        (filter_query services.get_paging_parameters services.has_authenticated_loader
          (filter_options in_sale none)
          empty).gravity.size
        c.array_length
filter_artworks-answers_example =
    filter_artworks-answers services in_sale none empty
      (record { hits = "work" ∷ []; total = some 1 }) 1 in_sale_checked refl refl refl
