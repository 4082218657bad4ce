-- ===== src/FieldSelection.antt =====
-- Whether a query requests a field: src/lib/isFieldRequested.ts, and isSkipped of
-- src/lib/hasFieldSelection.ts.
-- The tree that the packages make of a query is a parameter, with `none` where the parsing gives
-- nothing or throws. The entries of an object of the tree stand in their order, without their keys.
mod Requested
mod Tests
use Prim.Native.Char
use metaphysics.Common.{
  String, Bool, true, false, ◌||◌, ◌&&◌, Option, none, some, List, [], ◌∷◌, if◌then◌else◌, str_eq,
  split,
}

mutual
  -- A requested field: its name, and the fields below it by type.
  pub data ResolveTree : Type 0 where
    tree : String → FieldsByTypeName → ResolveTree

  pub data Fields : Type 0 where
    no_selection : Fields
    field : ResolveTree → Fields → Fields

  pub data FieldsByTypeName : Type 0 where
    no_type : FieldsByTypeName
    of_type : Fields → FieldsByTypeName → FieldsByTypeName

abbrev pub name_of : ResolveTree → String
name_of (tree name types) = name

abbrev pub types_of : ResolveTree → FieldsByTypeName
types_of (tree name types) = types

-- `Object.values(requestedFields).find(...)`
abbrev pub found_field : String → Fields → Option ResolveTree
found_field name no_selection = none
found_field name (field t fields) =
    if str_eq (name_of t) name then some t else found_field name fields

-- `!!Object.values(fieldsByTypeName).find(...)`
abbrev pub any_type : (Fields → Bool) → FieldsByTypeName → Bool
any_type p no_type = false
any_type p (of_type fields types) = p fields || any_type p types

abbrev pub below_found : (FieldsByTypeName → Bool) → Option ResolveTree → Bool
below_found p none = false
below_found p (some t) = p (types_of t)

-- No field has the name `undefined` of an empty path.
unfoldable pub recursively_find_field : List String → Fields → Bool
recursively_find_field [] requested_fields = false
recursively_find_field (first_field ∷ []) requested_fields =
    below_found (λ types. true) (found_field first_field requested_fields)
recursively_find_field (first_field ∷ next ∷ rest_fields) requested_fields =
    below_found (any_type (recursively_find_field (next ∷ rest_fields)))
      (found_field first_field requested_fields)

unfoldable pub is_field_requested : String → Option Fields → Bool
is_field_requested field_path none = false
is_field_requested field_path (some fields) = recursively_find_field (split b'.' field_path) fields

-- The value of an argument of a directive.
pub data ArgumentValue : Type 0 where
  variable : String → ArgumentValue
  boolean : Bool → ArgumentValue
  other_value : ArgumentValue

pub record Directive : Type 0 where
  pub name : String
  pub arguments : List (String × ArgumentValue)

module _ (variable_values : String → Bool) where
  -- One argument `if` after the other: the last of them that has a value decides.
  abbrev pub skipped_by : Bool → List (String × ArgumentValue) → Bool
  skipped_by skipped [] = skipped
  skipped_by skipped ((name, variable v) ∷ arguments) =
      skipped_by (if str_eq name "if" then variable_values v else skipped) arguments
  skipped_by skipped ((name, boolean b) ∷ arguments) =
      skipped_by (if str_eq name "if" then b else skipped) arguments
  skipped_by skipped ((name, other_value) ∷ arguments) = skipped_by skipped arguments

  abbrev pub skipped_after : Bool → List Directive → Bool
  skipped_after skipped [] = skipped
  skipped_after skipped (d ∷ directives) =
      skipped_after (if str_eq d.name "skip" then skipped_by skipped d.arguments else skipped)
        directives

  -- A variable's value counts as it is truthy.
  unfoldable pub is_skipped : List Directive → Bool
  is_skipped directives = skipped_after false directives
