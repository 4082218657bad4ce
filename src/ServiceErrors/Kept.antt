-- ===== src/ServiceErrors/Kept.antt =====
-- What of an error with a JSON object for a body is kept for the client.
use metaphysics.Common.{
  eq_iff, String, Bool, true, false, ◌&&◌, Option, none, some, if◌then◌else◌, str_eq, ◌≡◌, refl,
  sym, ap, ◌∙◌, Bool-cases, inl, inr,
}
use mathlib.Core.Path.{subst}
use mathlib.Core.Bool.{true≢false}
use metaphysics.Common.Json.{
  Json, text, array, object, Items, Fields, empty, field, truthy, property, lookup, set_field,
  spread, omit_field, is_array,
}
use metaphysics.ServiceErrors.{entries, has_array, Formatted, thrown, nothing, formatted}
use metaphysics.ServiceErrors.Handler.{
  ServiceError, message_and_status, with_status, format_gravity_error_details, format_body,
  format_any, format_unparsed, format_http, has_field_errors, field_errors, field_errors_answer,
  human_readable, two, format_gravity_error,
}

-- The result is an object with this status code.
abbrev pub HasStatus : Json → Formatted → Type 0
HasStatus status thrown = ⊥
HasStatus status nothing = ⊥
HasStatus status (formatted fields) = lookup "statusCode" fields ≡ status

lookup-set :
    (key : String) (value : Json) (fields : Fields)
    → lookup key (set_field key value fields) ≡ value
lookup-set key value empty = let e = (eq_iff key key).1 refl in rw e refl
lookup-set key value (field name other fields) = elim (Bool-cases (str_eq name key)) [
  | inl e ↦ rw (e, e) refl
  | inr e ↦ rw (e, e) (lookup-set key value fields)
]

HasStatus-if :
    (status : Json) (b : Bool) (x y : Formatted)
    → HasStatus status x
    → HasStatus status y
    → HasStatus status (if b then x else y)
HasStatus-if status true x y h k = h
HasStatus-if status false x y h k = k

with_status-HasStatus :
    (error : ServiceError) (fields : Fields)
    → HasStatus error.status_code (with_status error fields)
with_status-HasStatus error fields = lookup-set "statusCode" error.status_code fields

details-HasStatus :
    (error : ServiceError) (o : Option Items)
    → HasStatus error.status_code (field_errors_answer error o)
details-HasStatus error none = refl
details-HasStatus error (some messages) =
    lookup-set "statusCode" error.status_code (
      spread (field "fieldErrors" (array messages) empty)
        (omit_field "detail" (entries error.body)))

format_body-HasStatus : (error : ServiceError) → HasStatus error.status_code (format_body error)
unfolding format_body
format_body-HasStatus error =
    let human = with_status error (human_readable error.body) in
    let whole = with_status error (entries error.body) in
    HasStatus-if error.status_code (has_field_errors error.body)
      (field_errors_answer error (field_errors error.body))
      (if truthy (property "error" error.body) then human else whole)
      (details-HasStatus error (field_errors error.body))
      (HasStatus-if error.status_code (truthy (property "error" error.body)) human whole
        (with_status-HasStatus error (human_readable error.body))
        (with_status-HasStatus error (entries error.body)))

any_body :
    (parse : String → Option Json) (error : ServiceError)
    → truthy error.body ≡ true
    → format_any parse error ≡ format_body error
unfolding format_any
any_body parse error h = rw (format_any, h) refl

format_any-HasStatus :
    (parse : String → Option Json) (error : ServiceError)
    → truthy error.body ≡ true
    → HasStatus error.status_code (format_any parse error)
format_any-HasStatus parse error h =
    subst (λ (r : Formatted). HasStatus error.status_code r) (sym (any_body parse error h))
      (format_body-HasStatus error)

format_unparsed-HasStatus :
    (parse : String → Option Json) (error : ServiceError)
    → truthy error.body ≡ true
    → HasStatus error.status_code (format_unparsed parse error)
unfolding format_unparsed
format_unparsed-HasStatus parse error h =
    HasStatus-if error.status_code (truthy (property "error" error.body))
      (formatted (
        field "type" (text "error")
          (two "message" (property "error" error.body) "statusCode" error.status_code)))
      (format_any parse error) refl (format_any-HasStatus parse error h)

object_http :
    (parse : String → Option Json) (error : ServiceError) (fields : Fields)
    → error.body ≡ object fields
    → error.is_http ≡ true
    → format_gravity_error parse error ≡ format_unparsed parse error
unfolding format_gravity_error format_http
object_http parse error fields h n = rw (format_gravity_error, n) (ap (format_http parse error) h)

not_http :
    (parse : String → Option Json) (error : ServiceError)
    → error.is_http ≡ false
    → format_gravity_error parse error ≡ format_any parse error
unfolding format_gravity_error
not_http parse error n = rw (format_gravity_error, n) refl

-- An error whose body is a JSON object is answered by an object with the error's status code,
-- whatever the body holds and whether or not it is an HTTPError.
pub format_gravity_error-HasStatus :
    (parse : String → Option Json) (error : ServiceError) (fields : Fields)
    → error.body ≡ object fields
    → HasStatus error.status_code (format_gravity_error parse error)
format_gravity_error-HasStatus parse error fields h =
    let t : truthy error.body ≡ true = ap truthy h in
    elim (Bool-cases error.is_http) [
      | inl n ↦
          subst (λ (r : Formatted). HasStatus error.status_code r)
            (sym (object_http parse error fields h n)) (format_unparsed-HasStatus parse error t)
      | inr n ↦
          subst (λ (r : Formatted). HasStatus error.status_code r) (sym (not_http parse error n))
            (format_any-HasStatus parse error t)
    ]

abbrev pub all_arrays : Fields → Bool
all_arrays empty = true
all_arrays (field name value fields) = is_array value && all_arrays fields

details-none :
    (fields : Fields) → all_arrays fields ≡ false → format_gravity_error_details fields ≡ none
details-none empty h = absurd (true≢false h)
details-none (field name (array items) fields) h = rw (details-none fields h) refl
details-none (field name value fields) h = refl

mixed_detail :
    (error : ServiceError) (fields details : Fields)
    → error.body ≡ object fields
    → lookup "detail" fields ≡ object details
    → property "detail" error.body ≡ object details
mixed_detail error fields details b d = ap (property "detail") b ∙ d

mixed_body :
    (error : ServiceError) {details : Fields}
    → property "detail" error.body ≡ object details
    → has_array details ≡ true
    → all_arrays details ≡ false
    → format_body error ≡ formatted (message_and_status error)
unfolding has_field_errors field_errors format_body
mixed_body error {details = details} d h k =
    let found : has_field_errors error.body ≡ true = rw (has_field_errors, d) h in
    let refused : field_errors error.body ≡ none = rw (field_errors, d) (details-none details k) in
    rw (format_body, found, refused) refl

-- Where some value of the body's `detail` is an array and another is not, the answer of an error that
-- is no HTTPError is its message and status code alone: all of the body is lost.
pub format_gravity_error-mixed :
    (parse : String → Option Json) (error : ServiceError) (fields details : Fields)
    → error.is_http ≡ false
    → error.body ≡ object fields
    → lookup "detail" fields ≡ object details
    → has_array details ≡ true
    → all_arrays details ≡ false
    → format_gravity_error parse error ≡ formatted (message_and_status error)
format_gravity_error-mixed parse error fields details n b d h k =
    not_http parse error n
    ∙ (any_body parse error (ap truthy b)
        ∙ mixed_body error (mixed_detail error fields details b d) h k)
