-- ===== src/FilterArtworks/Lookups.antt =====
-- What the fields of the options are after the resolver's changes.
use metaphysics.Common.{
  String, true, false, not, ◌||◌, List, [], ◌∷◌, ◌≡◌, refl, sym, ap, ◌∙◌, inl, inr, Bool-cases,
  str_eq, includes,
}
use metaphysics.Common.Json.{
  Json, undefined, null, bool, number, text, array, object, Fields, empty, field, lookup, truthy,
}
use metaphysics.Common.Lookup.{
  has_field, or-false, lookup-omit_other, lookup-omit_same, lookup-set_other, lookup-spread,
}
use metaphysics.FilterArtworks.{is_nullish, delete_where, remove_nulls}
use metaphysics.FilterArtworks.Checks.{is_text}
use metaphysics.FilterArtworks.Query.{
  connection_names, omit_all, gravity_fields, with_unpublished, without_any_medium, cleaned_fields,
  is_false,
}

-- A value that was not deleted.
abbrev pub defined : Json → Json
defined null = undefined
defined value = value

pub truthy-defined : (value : Json) → truthy (defined value) ≡ truthy value
truthy-defined undefined = refl
truthy-defined null = refl
truthy-defined (bool b) = refl
truthy-defined (number n) = refl
truthy-defined (text s) = refl
truthy-defined (array items) = refl
truthy-defined (object fields) = refl

nullish_undefined : (value : Json) → is_nullish value ≡ true → defined value ≡ undefined
nullish_undefined undefined e = refl
nullish_undefined null e = refl
nullish_undefined (bool b) e = cc
nullish_undefined (number n) e = cc
nullish_undefined (text s) e = cc
nullish_undefined (array items) e = cc
nullish_undefined (object fields) e = cc

not_nullish : (value : Json) → is_nullish value ≡ false → defined value ≡ value
not_nullish undefined e = refl
not_nullish null e = cc
not_nullish (bool b) e = refl
not_nullish (number n) e = refl
not_nullish (text s) e = refl
not_nullish (array items) e = refl
not_nullish (object fields) e = refl

pub lookup-remove_nulls :
    (key : String) (fields : Fields)
    → lookup key (delete_where is_nullish fields) ≡ defined (lookup key fields)
lookup-remove_nulls key empty = refl
lookup-remove_nulls key (field name value fields) =
    let rest = lookup-remove_nulls key fields in
    elim (Bool-cases (str_eq name key)) [
      | inl k ↦ elim (Bool-cases (is_nullish value)) [
        | inl n ↦ rw (k, n) (lookup-omit_same key name _ k ∙ sym (nullish_undefined value n))
        | inr n ↦ rw (k, n, k) (sym (not_nullish value n))
      ]
      | inr k ↦ elim (Bool-cases (is_nullish value)) [
        | inl n ↦ rw (k, n) (lookup-omit_other key name _ k ∙ rest)
        | inr n ↦ rw (k, n, k) rest
      ]
    ]

pub lookup-omit_all :
    (key : String) (names : List String) (fields : Fields)
    → includes names key ≡ true
    → lookup key (omit_all names fields) ≡ undefined
lookup-omit_all key [] fields h = cc
lookup-omit_all key (name ∷ names) fields h = elim (Bool-cases (str_eq name key)) [
  | inl e ↦ lookup-omit_same key name _ e
  | inr e ↦ lookup-omit_other key name _ e ∙ lookup-omit_all key names fields (rw e at h)
]

pub lookup-omit_all_other :
    (key : String) (names : List String) (fields : Fields)
    → includes names key ≡ false
    → lookup key (omit_all names fields) ≡ lookup key fields
lookup-omit_all_other key [] fields h = refl
lookup-omit_all_other key (name ∷ names) fields h =
    let (d, rest) = or-false (str_eq name key) (includes names key) h in
    lookup-omit_other key name _ d ∙ lookup-omit_all_other key names fields rest

-- The fields that neither the code's own changes nor the parent touch.
pub lookup-gravity_fields :
    (key : String) (options added : Fields)
    → str_eq "disable_not_for_sale_sorting" key ≡ false
    → has_field key added ≡ false
    → includes connection_names key ≡ false
    → lookup key (gravity_fields options added) ≡ lookup key options
unfolding gravity_fields
lookup-gravity_fields key options added d h c =
    lookup-set_other key "disable_not_for_sale_sorting" _ _ d
    ∙ (lookup-spread key _ added h ∙ lookup-omit_all_other key connection_names options c)

pub lookup-with_unpublished :
    (key : String) (fields : Fields)
    → str_eq "include_unpublished" key ≡ false
    → lookup key (with_unpublished fields) ≡ lookup key fields
unfolding with_unpublished
lookup-with_unpublished key fields d = elim (Bool-cases (is_false (lookup "published" fields))) [
  | inl e ↦ rw e (lookup-set_other key "include_unpublished" (bool true) fields d)
  | inr e ↦ rw e refl
]

lookup-without_any_medium :
    (key : String) (fields : Fields)
    → str_eq "medium" key ≡ false
    → lookup key (without_any_medium fields) ≡ lookup key fields
unfolding without_any_medium
lookup-without_any_medium key fields d =
    elim (Bool-cases
      (is_text "*" (lookup "medium" fields) || not (truthy (lookup "medium" fields)))) [
        | inl e ↦ rw e (lookup-omit_other key "medium" fields d)
        | inr e ↦ rw e refl
      ]

pub lookup-cleaned_fields :
    (key : String) (options added : Fields)
    → str_eq "medium" key ≡ false
    → lookup key (cleaned_fields options added)
      ≡ defined (lookup key (with_unpublished (gravity_fields options added)))
unfolding cleaned_fields remove_nulls
lookup-cleaned_fields key options added d =
    lookup-remove_nulls key _ ∙ ap defined (lookup-without_any_medium key _ d)
