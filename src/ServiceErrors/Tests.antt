-- ===== src/ServiceErrors/Tests.antt =====
-- Errors of the repository's own test.
use metaphysics.Common.{String, true, false, Option, none, some, if◌then◌else◌, str_eq, ◌≡◌, refl}
use metaphysics.Common.Json.{
  Json, undefined, number, text, array, object, Items, nil, cons, Fields, empty, field,
}
use metaphysics.ServiceErrors.{thrown, nothing, formatted, join_items}
use metaphysics.ServiceErrors.Handler.{
  ServiceError, has_field_errors, field_errors, format_gravity_error,
}
use metaphysics.ServiceErrors.Kept.{HasStatus, format_gravity_error-HasStatus}

-- The texts of the test that are JSON.
abbrev parse : String → Option Json
parse s =
    if str_eq s "{\"error\":\"Card Not Found\"}"
    then some (object (field "error" (text "Card Not Found") empty))
    else none

abbrev error_of : String → Json → ServiceError
error_of message body = record {
  is_http = false;
  body = body;
  status_code = number 400;
  message = some message;
}

error_format :
    format_gravity_error parse
      (error_of "https://stagingapi.artsy.net/api - {\"error\":\"Card Not Found\"}" undefined)
    ≡ formatted (field "type" (text "error") (field "message" (text "Card Not Found") empty))
unfolding format_gravity_error
error_format = refl

unparsed :
    format_gravity_error parse
      (error_of "https://stagingapi.artsy.net/api - {\"fooError\"" undefined)
    ≡ formatted (field "message" (text "{\"fooError\"") empty)
unfolding format_gravity_error
unparsed = refl

one_part : format_gravity_error parse (error_of "no separator" undefined) ≡ nothing
unfolding format_gravity_error
one_part = refl

abbrev not_an_address : Items
not_an_address = cons (text "foo@artsymail.com is not an @artsy address") nil

abbrev param_error : Fields → Fields
param_error detail = field "type" (text "param_error") (
    field "message" (text "Email foo@artsymail.com is not an @artsy address.")
      (field "detail" (object detail) empty))

field_errors_shown :
    format_gravity_error parse
      (error_of "400" (object (param_error (field "email" (array not_an_address) empty))))
    ≡ formatted (
        field "fieldErrors"
          (array (
            cons
              (object (
                field "name"
                  (text "email")
                  (field "message" (text "foo@artsymail.com is not an @artsy address") empty)))
              nil))
          (field "type" (text "param_error") (
            field "message"
              (text "Email foo@artsymail.com is not an @artsy address.")
              (field "statusCode" (number 400) empty))))
unfolding format_gravity_error join_items has_field_errors field_errors
field_errors_shown = refl

no_body : format_gravity_error parse (record (error_of "404" undefined) { is_http = true }) ≡ thrown
unfolding format_gravity_error
no_body = refl

-- One value of the detail is an array, the other a text.
abbrev mixed_detail : Fields
mixed_detail = field "email" (array not_an_address) (field "name" (text "is missing") empty)

abbrev mixed_error : ServiceError
mixed_error = error_of "400" (object (param_error mixed_detail))

format_gravity_error-HasStatus_example :
    HasStatus (number 400) (format_gravity_error parse mixed_error)
format_gravity_error-HasStatus_example =
    format_gravity_error-HasStatus parse mixed_error (param_error mixed_detail) refl
