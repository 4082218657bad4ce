-- ===== src/FilterArtworks/Public.antt =====
-- What a request may ask for where nobody is logged in.
use metaphysics.Common.{
  ℕ, String, Bool, true, false, not, ◌||◌, Option, List, [], ◌∷◌, ◌++◌, ◌≡◌, refl, ap, ◌∙◌, inl,
  inr, Bool-cases, str_eq, includes, keep, if◌then◌else◌,
}
use metaphysics.Common.Json.{
  Json, undefined, null, bool, number, text, array, object, Fields, lookup, truthy,
}
use metaphysics.Common.Lookup.{has_field, or-false}
use metaphysics.Pagination.Args.{ConnectionOptions}
use metaphysics.FilterArtworks.Query.{
  connection_names, personal_names, Query, LoaderKind, unauthenticated, authenticated, uncached,
  texts_of, with_total, gravity_fields, with_unpublished, cleaned_fields,
  requested_authorized_filters, reads_uncached, filter_query,
}
use metaphysics.FilterArtworks.Lookups.{
  truthy-defined, lookup-omit_all, lookup-omit_all_other, lookup-gravity_fields,
  lookup-with_unpublished, lookup-cleaned_fields, defined,
}

abbrev pub is_authenticated : LoaderKind → Bool
is_authenticated unauthenticated = false
is_authenticated authenticated = true
is_authenticated uncached = false

abbrev pub is_not_followed : String → Bool
is_not_followed item = not (str_eq item "followed_artists")

-- The query asks for nothing that needs a login: neither by its loader nor in its options, but for
-- `include_all_json`.
abbrev pub IsPublic : Query → Type 0
IsPublic query =
    (is_authenticated query.loader ≡ false)
    × (truthy (lookup "include_unpublished" query.gravity.rest) ≡ false)
    × (truthy (lookup "visibility_level" query.gravity.rest) ≡ false)
    × (truthy (lookup "include_artworks_by_followed_artists" query.gravity.rest) ≡ false)
    × (includes query.aggregations "followed_artists" ≡ false)

keep-not_followed :
    (items : List String) → includes (keep is_not_followed items) "followed_artists" ≡ false
keep-not_followed [] = refl
keep-not_followed (item ∷ items) =
    let rest = keep-not_followed items in
    elim (Bool-cases (str_eq item "followed_artists")) [
      | inl e ↦ rw e rest
      | inr e ↦ rw (e, e) rest
    ]

includes-append :
    (xs ys : List String) (x : String)
    → includes xs x ≡ false
    → includes ys x ≡ false
    → includes (xs ++ ys) x ≡ false
includes-append [] ys x e f = f
includes-append (y ∷ xs) ys x e f =
    let (d, rest) = or-false (str_eq y x) (includes xs x) e in
    rw (d, includes-append xs ys x rest f) refl

with_total-not_followed :
    (items : List String)
    → includes items "followed_artists" ≡ false
    → includes (with_total items) "followed_artists" ≡ false
unfolding with_total
with_total-not_followed items e = elim (Bool-cases (includes items "total")) [
  | inl t ↦ rw t e
  | inr t ↦ rw t (includes-append items _ "followed_artists" e refl)
]

-- A field of the options that neither the code nor the parent sets is falsy in the query's if it is in the options.
kept_falsy :
    (key : String) (options added : Fields)
    → str_eq "medium" key ≡ false
    → truthy (lookup key (with_unpublished (gravity_fields options added))) ≡ false
    → truthy (lookup key (cleaned_fields options added)) ≡ false
kept_falsy key options added d f =
    ap truthy (lookup-cleaned_fields key options added d)
    ∙ (truthy-defined (lookup key (with_unpublished (gravity_fields options added))) ∙ f)

option_falsy :
    (key : String) (options added : Fields)
    → str_eq "medium" key ≡ false
    → str_eq "include_unpublished" key ≡ false
    → str_eq "disable_not_for_sale_sorting" key ≡ false
    → includes connection_names key ≡ false
    → has_field key added ≡ false
    → truthy (lookup key options) ≡ false
    → truthy (lookup key (cleaned_fields options added)) ≡ false
option_falsy key options added m u d c h f = kept_falsy key options added m (
    ap truthy (lookup-with_unpublished key _ u ∙ lookup-gravity_fields key options added d h c) ∙ f)

not_authenticated : (b : Bool) → is_authenticated (if b then uncached else unauthenticated) ≡ false
not_authenticated true = refl
not_authenticated false = refl

-- The filters that ask for the authenticated loader are not there.
no_filters :
    (options fields : Fields)
    → requested_authorized_filters options fields ≡ false
    → (truthy (lookup "include_unpublished" fields) ≡ false)
      × (truthy (lookup "include_artworks_by_followed_artists" options) ≡ false)
      × (truthy (lookup "visibility_level" options) ≡ false)
unfolding requested_authorized_filters
no_filters options fields e =
    let (u, rest) = or-false (truthy (lookup "include_unpublished" fields)) _ e in
    let (f, last) =
      or-false (truthy (lookup "include_artworks_by_followed_artists" options)) _ rest in
    (u, f, (or-false (truthy (lookup "visibility_level" options)) _ last).0)

defined-truthy : (value : Json) → truthy value ≡ true → defined value ≡ value
defined-truthy undefined e = refl
defined-truthy null e = cc
defined-truthy (bool b) e = refl
defined-truthy (number n) e = refl
defined-truthy (text s) e = refl
defined-truthy (array items) e = refl
defined-truthy (object fields) e = refl

pub or-true : (a : Bool) → (a || true) ≡ true
or-true true = refl
or-true false = refl

is_personal :
    (options : Fields) (asked : Bool) (fields : Fields)
    → truthy (lookup "include_all_json" options) ≡ true
    → (asked || requested_authorized_filters options fields) ≡ true
unfolding requested_authorized_filters
is_personal options asked fields t =
    rw (t, or-true (truthy (lookup "visibility_level" options)))
      (rw (or-true (truthy (lookup "include_artworks_by_followed_artists" options)))
        (rw (or-true (truthy (lookup "include_unpublished" fields))) (or-true asked)))

module _ (get_paging_parameters : ConnectionOptions Fields → Option ℕ × ℕ)
    (options added : Fields) where
  -- Where there is no authenticated loader, and the field's parent adds neither a visibility level
  -- nor the works of followed artists, the query goes to another loader, and its options ask
  -- neither for unpublished works, nor for a visibility level, nor for the works or the aggregation
  -- of followed artists, whatever the arguments ask for.
  pub filter_query-IsPublic :
      has_field "visibility_level" added ≡ false
      → has_field "include_artworks_by_followed_artists" added ≡ false
      → IsPublic (filter_query get_paging_parameters false options added)
  unfolding filter_query
  filter_query-IsPublic v f =
      let xs = texts_of (lookup "aggregations" options) in
      let unpublished = with_unpublished (gravity_fields options added) in
      let fields = cleaned_fields options added in
      let asked = includes xs "followed_artists" in
      let filters = requested_authorized_filters options unpublished in
      elim (Bool-cases (asked || filters)) [
        | inl p ↦ rw p (
          refl,
          ap truthy (lookup-omit_all "include_unpublished" personal_names fields refl),
          ap truthy (lookup-omit_all "visibility_level" personal_names fields refl),
          ap truthy
              (lookup-omit_all "include_artworks_by_followed_artists" personal_names fields refl),
          keep-not_followed (with_total xs),
        )
        | inr p ↦
            let (a, e) = or-false asked filters p in
            let (no_unpublished, no_followed, no_level) = no_filters options unpublished e in
            rw p (
              not_authenticated (reads_uncached fields),
              kept_falsy "include_unpublished" options added refl no_unpublished,
              option_falsy "visibility_level" options added refl refl refl refl v no_level,
              option_falsy "include_artworks_by_followed_artists" options added refl refl refl refl
                  f no_followed,
              with_total-not_followed xs a,
            )
      ]

  -- A request for all of the JSON, which needs a login, keeps `include_all_json` where there is no
  -- authenticated loader: the unauthenticated one is asked with it, if the field's parent does not
  -- set it.
  pub filter_query-all_json :
      truthy (lookup "include_all_json" options) ≡ true
      → has_field "include_all_json" added ≡ false
      → let query = filter_query get_paging_parameters false options added in
        (query.loader ≡ unauthenticated)
        × (lookup "include_all_json" query.gravity.rest ≡ lookup "include_all_json" options)
  unfolding filter_query
  filter_query-all_json t h =
      let xs = texts_of (lookup "aggregations" options) in
      let fields = cleaned_fields options added in
      let kept =
        lookup-omit_all_other "include_all_json" personal_names fields refl
        ∙ (lookup-cleaned_fields "include_all_json" options added refl
            ∙ (ap defined (
                  lookup-with_unpublished "include_all_json" (gravity_fields options added) refl
                  ∙ lookup-gravity_fields "include_all_json" options added refl h refl)
                ∙ defined-truthy (lookup "include_all_json" options) t)) in
      rw (is_personal options (includes xs "followed_artists") _ t) (refl, kept)
