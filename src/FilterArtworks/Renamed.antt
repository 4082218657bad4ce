-- ===== src/FilterArtworks/Renamed.antt =====
-- The old names of the arguments, which are not among the options.
use metaphysics.Common.{
  String, Bool, true, false, ◌||◌, ◌&&◌, Option, if◌then◌else◌, ℕ, List, [], ◌∷◌, map, ◌≡◌, refl,
  ap, ◌∙◌, inl, inr, Bool-cases, str_eq, includes, or_else,
}
use metaphysics.Common.Json.{Json, Fields, empty, field, lookup, truthy}
use metaphysics.Common.Lookup.{
  has_field, or-false, lookup-absent, has_field-spread, has_field-omit_field, has_field-omit_same,
}
use metaphysics.FilterArtworks.{
  renamed_args, renamed, other_args, convert_filter_args, delete_where, remove_empty_values,
  filter_options,
}
use metaphysics.FilterArtworks.Checks.{is_text}
use metaphysics.FilterArtworks.Query.{
  cleaned_fields, gravity_fields, reads_uncached, texts_of, with_unpublished,
  requested_authorized_filters, filter_query, uncached, unauthenticated,
}
use metaphysics.Pagination.Args.{ConnectionOptions}
use metaphysics.FilterArtworks.Lookups.{
  defined, lookup-cleaned_fields, lookup-gravity_fields, lookup-with_unpublished,
}

abbrev pub old_name : String × String → String
old_name (name, new_name) = name

abbrev pub new_name : String × String → String
new_name (name, renamed) = renamed

has_field-renamed :
    (key : String) (names : List (String × String)) (args : Fields)
    → includes (map new_name names) key ≡ false
    → has_field key (renamed names args) ≡ false
has_field-renamed key [] args h = refl
has_field-renamed key ((name, other) ∷ names) args h =
    let (d, rest) = or-false (str_eq other key) (includes (map new_name names) key) h in
    rw (d, has_field-renamed key names args rest) refl

has_field-other_args :
    (key : String) (names : List (String × String)) (args : Fields)
    → includes (map old_name names) key ≡ true
    → has_field key (other_args names args) ≡ false
has_field-other_args key [] args h = cc
has_field-other_args key ((name, other) ∷ names) args h = elim (Bool-cases (str_eq name key)) [
  | inl e ↦ has_field-omit_same key name (other_args names args) e
  | inr e ↦
      has_field-omit_field key name (other_args names args)
        (has_field-other_args key names args (rw e at h))
]

has_field-delete_where :
    (key : String) (test : Json → Bool) (fields : Fields)
    → has_field key fields ≡ false
    → has_field key (delete_where test fields) ≡ false
has_field-delete_where key test empty h = refl
has_field-delete_where key test (field name value fields) h =
    let (d, rest) = or-false (str_eq name key) (has_field key fields) h in
    let kept = has_field-delete_where key test fields rest in
    elim (Bool-cases (test value)) [
      | inl e ↦ rw e (has_field-omit_field key name _ kept)
      | inr e ↦ rw (e, d) kept
    ]

has_field-converted :
    (key : String) (args : Fields)
    → includes (map old_name renamed_args) key ≡ true
    → includes (map new_name renamed_args) key ≡ false
    → has_field key (remove_empty_values (convert_filter_args args)) ≡ false
unfolding remove_empty_values convert_filter_args
has_field-converted key args o n = has_field-delete_where key _ _ (
    has_field-spread key (renamed renamed_args args) (other_args renamed_args args)
      (has_field-renamed key renamed_args args n) (has_field-other_args key renamed_args args o))

-- An argument that is renamed is not among the options under its old name, unless another one has
-- that name after the renaming.
pub filter_options-renamed :
    (key : String) (root : Fields) (input : Option Fields)
    → includes (map old_name renamed_args) key ≡ true
    → includes (map new_name renamed_args) key ≡ false
    → has_field key (filter_options root input) ≡ false
unfolding filter_options
filter_options-renamed key root input o n =
    let args = or_else input empty in
    has_field-spread key (remove_empty_values (convert_filter_args root))
      (remove_empty_values (convert_filter_args args)) (has_field-converted key root o n)
      (has_field-converted key args o n)

-- The options are sorted by price.
abbrev pub sorts_by_price : Fields → Bool
sorts_by_price fields =
    is_text "-prices" (lookup "sort" fields) || is_text "prices" (lookup "sort" fields)

and-true : (a : Bool) → (a && true) ≡ a
and-true true = refl
and-true false = refl

-- Among the works of a sale every price range asks for the uncached loader, the open one `*-*` too,
-- since the code looks for that one under a name that the options do not have, unless the field's
-- parent sets it.
reads_uncached-any_range :
    (root : Fields) (input : Option Fields) (added : Fields)
    → has_field "priceRange" added ≡ false
    → let fields = cleaned_fields (filter_options root input) added in
      reads_uncached fields
      ≡ (sorts_by_price fields || truthy (lookup "price_range" fields))
        && truthy (lookup "sale_id" fields)
unfolding reads_uncached
reads_uncached-any_range root input added h =
    let options = filter_options root input in
    let fields = cleaned_fields options added in
    let gone =
      lookup-cleaned_fields "priceRange" options added refl
      ∙ ap defined (
          lookup-with_unpublished "priceRange" (gravity_fields options added) refl
          ∙ (lookup-gravity_fields "priceRange" options added refl h refl
              ∙ lookup-absent "priceRange" options
                  (filter_options-renamed "priceRange" root input refl refl))) in
    rw (gone, and-true (truthy (lookup "price_range" fields))) refl

-- A request that asks for works or aggregations of its own.
abbrev pub is_personal : Fields → Fields → Bool
is_personal options added =
    includes (texts_of (lookup "aggregations" options)) "followed_artists"
    || requested_authorized_filters options (with_unpublished (gravity_fields options added))

-- Of a request that asks for nothing personal, and whose field's parent does not set `priceRange`, the
-- uncached loader is asked exactly if it is for the works of a sale, sorted by price or of any price
-- range, the open one `*-*` too, since the code looks for that one under a name that the options do
-- not have.
pub filter_query-any_range :
    (get_paging_parameters : ConnectionOptions Fields → Option ℕ × ℕ) (has_authenticated : Bool)
    (root : Fields) (input : Option Fields) (added : Fields)
    → is_personal (filter_options root input) added ≡ false
    → has_field "priceRange" added ≡ false
    → let options = filter_options root input in
      let fields = cleaned_fields options added in
      (filter_query get_paging_parameters has_authenticated options added).loader ≡ (
        if (sorts_by_price fields || truthy (lookup "price_range" fields))
          && truthy (lookup "sale_id" fields)
        then uncached
        else unauthenticated)
unfolding filter_query
filter_query-any_range get_paging_parameters has_authenticated root input added plain h =
    rw (plain, reads_uncached-any_range root input added h) refl
