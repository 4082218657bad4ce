-- ===== src/Errors.antt =====
-- Errors of the gateway: src/lib/graphqlErrorHandler.ts, with the classes of src/lib/HTTPError.ts
-- and src/lib/graphqlTimeoutMiddleware.ts.
-- Among the errors only a GraphQLError has an original error, and only a CombinedError of
-- graphql-tools has a list of errors.
pub mod Reports
pub mod Codes
mod Tests
use mathlib.Core.Option
use Prim.Native.Char.{code}
use Prim.Native.String
use metaphysics.Common.{
  ℕ, zero, suc, ◌+◌, ◌-◌, ◌*◌, String, Bool, true, false, ◌&&◌, not, Option, none, some, List, [],
  ◌∷◌, if◌then◌else◌, leb, ltb, ◌==◌, ◌<>◌, keep, split, starts_with, is_some, or_else,
}

mutual
  pub data GraphqlError : Type 0 where
    graphql_error :
        (message : String) (locations : Option (List (ℕ × ℕ))) (path : Option (List String))
        (stack : Option String) (original : Original)
        → GraphqlError

  -- An error that may be missing: `null | undefined | Error`. A `server` error is any other error,
  -- with the status of its response if it has one.
  pub data Original : Type 0 where
    missing : Original
    of_graphql : GraphqlError → Original
    http : (message : String) (status_code : ℕ) → Original
    timed_out : (message : String) → Original
    server : (message : String) (status : Option ℕ) → Original
    combined : (message : String) (errors : Errors) → Original

  pub data Errors : Type 0 where
    end : Errors
    more : GraphqlError → Errors → Errors

abbrev pub original_of : GraphqlError → Original
original_of (graphql_error message locations path stack original) = original

abbrev pub to_list : Errors → List GraphqlError
to_list end = []
to_list (more e errors) = e ∷ to_list errors

unfoldable pub flatten_errors : GraphqlError → List GraphqlError
flatten_errors e = elim (original_of e) [ combined message errors ↦ to_list errors | _ ↦ e ∷ [] ]

-- The loop of `deepestOriginalError`: the current error and its original error.
abbrev pub walk : Original → Original → Original
walk current missing = current
walk current (of_graphql (graphql_error message locations path stack original)) =
    walk (of_graphql (graphql_error message locations path stack original)) original
walk current (http message status_code) = http message status_code
walk current (timed_out message) = timed_out message
walk current (server message status) = server message status
walk current (combined message errors) = combined message errors

unfoldable pub deepest_original_error : Original → Original
deepest_original_error e = walk missing e

-- `get(e, "originalError.response.status")`
abbrev pub response_status : Original → Option ℕ
response_status (server message status) = status
response_status _ = none

abbrev pub message_of : Original → Option String
message_of missing = none
message_of (of_graphql (graphql_error message locations path stack original)) = some message
message_of (http message status_code) = some message
message_of (timed_out message) = some message
message_of (server message status) = some message
message_of (combined message errors) = some message

abbrev pub is_digit : ℕ → Bool
is_digit c = leb 48 c && leb c 57

-- The number of the leading digits; `none` if there is none.
abbrev pub number_at : Option ℕ → String → Option ℕ
number_at n String.[] = n
number_at n (String.◌∷◌ c s) =
    let rest = number_at (some (10 * or_else n 0 + (code c - 48))) s in
    if is_digit (code c) then rest else n

abbrev pub code_prefix : String
code_prefix = "extensions: { code: "

abbrev pub drop_text : String → String → String
drop_text String.[] s = s
drop_text (String.◌∷◌ b t) String.[] = String.[]
drop_text (String.◌∷◌ b t) (String.◌∷◌ c s) = drop_text t s

-- The group of `message.match(/extensions: { code: (\d+)/)`, parsed: the first match.
unfoldable pub matched_code : String → Option ℕ
matched_code String.[] = none
matched_code (String.◌∷◌ c s) =
    let later = matched_code s in
    let text = String.◌∷◌ c s in
    let here = number_at none (drop_text code_prefix text) in
    if starts_with text code_prefix && is_some here then here else later

unfoldable pub alternate_status : Option String → Option ℕ
alternate_status none = none
alternate_status (some message) = matched_code message

-- `a || b` of numbers that may be missing
abbrev pub or_number : Option ℕ → Option ℕ → Option ℕ
or_number none b = b
or_number (some zero) b = b
or_number (some (suc n)) b = some (suc n)

abbrev pub http_status : Original → Option ℕ
http_status (http message status_code) = some status_code
http_status _ = none

unfoldable pub status_code_for_error : GraphqlError → Option ℕ
unfolding deepest_original_error alternate_status
status_code_for_error e = or_number (response_status (original_of e)) (
    or_number (http_status (deepest_original_error (of_graphql e)))
      (alternate_status (message_of (original_of e))))

abbrev pub is_allowlisted : ℕ → Bool
is_allowlisted status =
    if status == 401 then true else if status == 403 then true else status == 404

unfoldable pub should_report_error : Original → Bool
should_report_error missing = true
should_report_error (of_graphql (graphql_error message locations path stack original)) =
    let rest = should_report_error original in
    if starts_with message "Syntax Error" then false else rest
should_report_error (http message status_code) =
    ltb status_code 500 && not (is_allowlisted status_code)
should_report_error (timed_out message) = false
should_report_error (server message status) = true
should_report_error (combined message errors) = true

-- A status code is pushed unless it is falsy.
abbrev pub push_status : Option ℕ → List ℕ → List ℕ
push_status none codes = codes
push_status (some zero) codes = codes
push_status (some (suc n)) codes = suc n ∷ codes

-- The status codes of `formattedGraphQLError`
unfoldable pub http_status_codes : List GraphqlError → List ℕ
http_status_codes [] = []
http_status_codes (e ∷ errors) = push_status (status_code_for_error e) (http_status_codes errors)

abbrev pub non_empty_list : {A : Type 0} → List A → Option (List A)
non_empty_list [] = none
non_empty_list (x ∷ xs) = some (x ∷ xs)

-- A key that is not set is `none`; `http_status_codes` is the key of `extensions`.
pub record FormattedError : Type 0 where
  pub message : String
  pub locations : Option (List (ℕ × ℕ))
  pub path : Option (List String)
  pub stack : Option (List String)
  pub http_status_codes : Option (List ℕ)

unfoldable pub formatted_graphql_error : Bool → GraphqlError → List GraphqlError → FormattedError
formatted_graphql_error production (graphql_error message locations path stack original) flattened =
    record {
      message = message;
      locations = locations;
      path = path;
      stack = if production then none else Option.map (split b'\n') stack;
      http_status_codes = non_empty_list (http_status_codes flattened);
    }

-- What `graphqlErrorHandler` does: the exceptions for Sentry, the lines of the log, the answer.
pub record Handled : Type 0 where
  pub captured : List Original
  pub logged : List String
  pub answer : FormattedError

-- `reportErrorToSentry` captures the deepest original error, which is at least the error itself.
unfoldable pub captured_errors : List GraphqlError → List Original
captured_errors [] = []
captured_errors (e ∷ errors) =
    let rest = captured_errors errors in
    if should_report_error (of_graphql e)
    then deepest_original_error (of_graphql e) ∷ rest
    else rest

-- `stringify` is `JSON.stringify` of a path.
abbrev pub log_line : (List String → String) → GraphqlError → String
log_line stringify (graphql_error message locations none stack original) = message
log_line stringify (graphql_error message locations (some []) stack original) = message
log_line stringify (graphql_error message locations (some (p ∷ path)) stack original) =
    message <> (" (" <> (stringify (p ∷ path) <> ")"))

unfoldable pub graphql_error_handler : (List String → String) → Bool → Bool → GraphqlError → Handled
graphql_error_handler stringify production enable_sentry e =
    let flattened = flatten_errors e in
    let answer = formatted_graphql_error production e flattened in
    if enable_sentry
    then record { captured = captured_errors flattened; logged = []; answer = answer }
    else record { captured = []; logged = log_line stringify e ∷ []; answer = answer }
