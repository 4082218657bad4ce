-- ===== src/Errors/Reports.antt =====
-- Which errors are reported: an error is judged by what lies deepest in its chain.
use metaphysics.Common.{
  length, ◌≡◌, refl, sym, String, Bool, true, false, ◌&&◌, not, if◌then◌else◌, List, [], ◌∷◌, ltb,
  All, Bool-cases, starts_with, arith, inl, inr,
}
use metaphysics.Errors.{
  GraphqlError, graphql_error, Original, missing, of_graphql, http, timed_out, server, combined,
  is_allowlisted, walk, deepest_original_error, should_report_error, captured_errors,
  flatten_errors, graphql_error_handler,
}

-- A syntax error stands somewhere in the chain of GraphQL errors.
abbrev pub has_syntax_error : Original → Bool
has_syntax_error (of_graphql (graphql_error message locations path stack original)) =
    let rest = has_syntax_error original in
    if starts_with message "Syntax Error" then true else rest
has_syntax_error _ = false

-- An error without an original error that is neither a timeout nor an answer of a service that is
-- a server error (500 and above) or an expected client error (401, 403, 404).
abbrev pub is_reportable : Original → Bool
is_reportable (http message status_code) = ltb status_code 500 && not (is_allowlisted status_code)
is_reportable (timed_out message) = false
is_reportable _ = true

walk-report :
    (current e : Original)
    → is_reportable current ≡ true
    → should_report_error e ≡ not (has_syntax_error e) && is_reportable (walk current e)
unfolding should_report_error
walk-report current missing h = sym h
walk-report current (of_graphql (graphql_error m l p s o)) h =
    elim (Bool-cases (starts_with m "Syntax Error")) [
      | inl e ↦ rw e refl
      | inr e ↦ rw (e, walk-report (of_graphql (graphql_error m l p s o)) o refl)
    ]
walk-report current (http m s) h = refl
walk-report current (timed_out m) h = refl
walk-report current (server m s) h = refl
walk-report current (combined m es) h = refl

pub should_report-deepest :
    (e : Original)
    → should_report_error e ≡ not (has_syntax_error e) && is_reportable (deepest_original_error e)
unfolding deepest_original_error
should_report-deepest e = walk-report missing e refl

reported_deepest :
    (e : Original) → should_report_error e ≡ true → is_reportable (deepest_original_error e) ≡ true
reported_deepest e h = let d = should_report-deepest e in grind arith

captured-reportable :
    (errors : List GraphqlError)
    → All (λ (c : Original). is_reportable c ≡ true) (captured_errors errors)
unfolding captured_errors
captured-reportable [] = tt
captured-reportable (e ∷ errors) = elim (Bool-cases (should_report_error (of_graphql e))) [
  | inl h ↦ rw h (reported_deepest (of_graphql e) h, captured-reportable errors)
  | inr h ↦ rw h (captured-reportable errors)
]

-- Whatever error is handled, what is captured for Sentry is to be reported: no timeout, and no
-- HTTP error of status 401, 403, 404 or of 500 and above, at any depth and in any combination.
-- Without Sentry exactly one line is logged and nothing is captured, and with Sentry no line.
pub handler-captured :
    (stringify : List String → String) (production enable_sentry : Bool) (e : GraphqlError)
    → let handled = graphql_error_handler stringify production enable_sentry e in
      All (λ (c : Original). is_reportable c ≡ true) handled.captured
      × (length handled.logged ≡ (if enable_sentry then 0 else 1))
      × (enable_sentry ≡ false → handled.captured ≡ [])
unfolding graphql_error_handler
handler-captured stringify production true e =
    (captured-reportable (flatten_errors e), refl, λ h. grind arith)
handler-captured stringify production false e = (tt, refl, λ h. refl)
