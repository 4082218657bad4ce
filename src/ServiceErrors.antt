-- ===== src/ServiceErrors.antt =====
-- Errors of services for clients: src/lib/gravityErrorHandler.ts.
-- A value is what JSON can hold, or undefined; its numbers are natural. `JSON.parse` of a text is a
-- parameter, and `none` its exception: of a body that is no text it throws.
pub mod Handler
mod Kept
mod Tests
use Prim.Native.String
use metaphysics.Common.{
  ℕ, zero, suc, String, Bool, true, false, not, ◌&&◌, ◌||◌, Option, none, some, if◌then◌else◌,
  str_eq, starts_with, non_empty, ◌<>◌, decimal,
}
use metaphysics.Common.Json.{
  Json, undefined, null, bool, number, text, array, object, Items, nil, cons, Fields, empty, field,
  truthy, either, lookup, property, set_field, spread, omit_field, is_array,
}
use metaphysics.Errors.{drop_text}

abbrev pub items_from : ℕ → Items → Fields
items_from i nil = empty
items_from i (cons value items) = field (decimal i) value (items_from (suc i) items)

abbrev pub characters_from : ℕ → String → Fields
characters_from i String.[] = empty
characters_from i (String.◌∷◌ c s) =
    field (decimal i) (text (String.◌∷◌ c String.[])) (characters_from (suc i) s)

-- The own properties of a value.
abbrev pub entries : Json → Fields
entries (object fields) = fields
entries (array items) = items_from 0 items
entries (text s) = characters_from 0 s
entries value = empty

-- `Object.keys(pickBy(detail, isArray))` is not empty.
abbrev pub has_array : Fields → Bool
has_array empty = false
has_array (field name value fields) = is_array value || has_array fields

unfoldable mutual
  -- A value in a joined text.
  pub text_of : Json → String
  text_of undefined = ""
  text_of null = ""
  text_of (bool true) = "true"
  text_of (bool false) = "false"
  text_of (number n) = decimal n
  text_of (text s) = s
  text_of (array items) = join_items "," items
  text_of (object fields) = "[object Object]"

  pub join_items : String → Items → String
  join_items by nil = ""
  join_items by (cons value nil) = text_of value
  join_items by (cons value (cons next items)) =
      text_of value <> (by <> join_items by (cons next items))

-- A result: an exception, null or an object.
pub data Formatted : Type 0 where
  thrown : Formatted
  nothing : Formatted
  formatted : Fields → Formatted
