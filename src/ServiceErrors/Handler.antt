-- ===== src/ServiceErrors/Handler.antt =====
-- formatGravityError and formatGravityErrorDetails of src/lib/gravityErrorHandler.ts.
use metaphysics.Common.{
  String, Bool, true, false, ◌&&◌, Option, none, some, if◌then◌else◌, starts_with,
}
use mathlib.Core.Option
use metaphysics.Errors.{drop_text}
use metaphysics.Common.Json.{
  Json, undefined, null, text, array, object, Items, nil, cons, Fields, empty, field, truthy,
  either, property, set_field, spread, omit_field,
}
use metaphysics.ServiceErrors.{
  entries, has_array, join_items, Formatted, thrown, nothing, formatted,
}

-- `is_http` is whether it is an HTTPError; a body that is missing is `undefined`.
pub record ServiceError : Type 0 where
  pub is_http : Bool
  pub body : Json
  pub status_code : Json
  pub message : Option String

abbrev pub text_or_undefined : Option String → Json
text_or_undefined none = undefined
text_or_undefined (some s) = text s

abbrev pub two : String → Json → String → Json → Fields
two a v b w = field a v (field b w empty)

-- The messages of the fields; `none` is the exception at a value that is no array.
abbrev pub format_gravity_error_details : Fields → Option Items
format_gravity_error_details empty = some nil
format_gravity_error_details (field name (array items) fields) =
    Option.map (cons (object (two "name" (text name) "message" (text (join_items ", " items)))))
      (format_gravity_error_details fields)
format_gravity_error_details (field name value fields) = none

-- The text up to the next `by`.
abbrev pub until : String → String → String
until by String.[] = ""
until by (String.◌∷◌ c s) =
    let rest = until by s in if starts_with (String.◌∷◌ c s) by then "" else String.◌∷◌ c rest

-- `split(by)[1]`, none where there is one part
abbrev pub second_part : String → String → Option String
second_part by String.[] = none
second_part by (String.◌∷◌ c s) =
    let later = second_part by s in
    if starts_with (String.◌∷◌ c s) by
    then some (until by (drop_text by (String.◌∷◌ c s)))
    else later

abbrev pub is_object : Json → Bool
is_object (object fields) = true
is_object (array items) = true
is_object value = false

abbrev pub message_and_status : ServiceError → Fields
message_and_status error =
    two "message" (text_or_undefined error.message) "statusCode" error.status_code

abbrev pub with_status : ServiceError → Fields → Formatted
with_status error fields = formatted (set_field "statusCode" error.status_code fields)

-- `fieldErrorResults` is not 0.
unfoldable pub has_field_errors : Json → Bool
has_field_errors body =
    let detail = property "detail" body in truthy detail && has_array (entries detail)

unfoldable pub field_errors : Json → Option Items
field_errors body = format_gravity_error_details (entries (property "detail" body))

abbrev pub field_errors_answer : ServiceError → Option Items → Formatted
field_errors_answer error none = formatted (message_and_status error)
field_errors_answer error (some messages) =
    with_status error (
      spread (field "fieldErrors" (array messages) empty)
        (omit_field "detail" (entries error.body)))

abbrev pub human_readable : Json → Fields
human_readable body =
    spread
      (two "type" (either (property "type" body) (text "error")) "message" (property "error" body))
      (omit_field "message" (omit_field "type" (entries body)))

-- The rest of an error with a body: its fields' errors, a human readable message, or the body.
unfoldable pub format_body : ServiceError → Formatted
format_body error =
    if has_field_errors error.body
    then field_errors_answer error (field_errors error.body)
    else if truthy (property "error" error.body)
    then with_status error (human_readable error.body)
    else with_status error (entries error.body)

module _ (parse : String → Option Json) where
  -- An error without a body, whose message holds JSON after " - ".
  unfoldable pub format_legacy : Option String → Formatted
  format_legacy none = nothing
  format_legacy (some message) = elim (second_part " - " message) [
    | none ↦ nothing
    | some part ↦ elim (parse part) [
      | none ↦ formatted (field "message" (text part) empty)
      | some null ↦ formatted (field "message" (text part) empty)
      | some value ↦
          if truthy (property "error" value)
          then formatted (two "type" (text "error") "message" (property "error" value))
          else formatted (entries value)
    ]
  ]

  unfoldable pub format_any : ServiceError → Formatted
  unfolding format_body format_legacy
  format_any error = if truthy error.body then format_body error else format_legacy error.message

  -- An HTTPError with a text for a body.
  unfoldable pub format_text : ServiceError → String → Formatted
  format_text error body = elim (parse body) [
    | none ↦ formatted (two "type" (text "error") "message" (text body))
    | some parsed ↦
        if is_object parsed
        then formatted (
            spread (two "type" (text "error") "error" (text body)) (
              two "statusCode" error.status_code "message"
                (either (property "error" parsed) (property "message" parsed))))
        else formatted (two "type" (text "error") "message" (text body))
  ]

  -- An HTTPError whose body is no text, so that it is not parsed: to read `error` of a missing body
  -- is an exception.
  unfoldable pub format_unparsed : ServiceError → Formatted
  unfolding format_any
  format_unparsed error =
      if truthy (property "error" error.body)
      then formatted (
          field "type" (text "error")
            (two "message" (property "error" error.body) "statusCode" error.status_code))
      else format_any error

  -- An HTTPError, by its body.
  unfoldable pub format_http : ServiceError → Json → Formatted
  unfolding format_text format_unparsed
  format_http error undefined = thrown
  format_http error null = thrown
  format_http error (text body) = format_text error body
  format_http error body = format_unparsed error

  unfoldable pub format_gravity_error : ServiceError → Formatted
  unfolding format_http format_any
  format_gravity_error error =
      if error.is_http then format_http error error.body else format_any error
