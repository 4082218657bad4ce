-- ===== src/Errors/Tests.antt =====
-- Errors of the repository's own tests, and others.
use metaphysics.Common.{arith, ◌<◌, ◌≡◌, refl, String, true, false, none, some, List, [], ◌∷◌, All}
use metaphysics.Errors.{
  GraphqlError, graphql_error, Original, missing, of_graphql, http, server, should_report_error,
  status_code_for_error, matched_code,
}
use metaphysics.Errors.Codes.{Layer, wrap, wrapped, Part}

abbrev not_found : Layer
not_found = record { message = "not found"; locations = none; path = none; stack = none }

abbrev nested : Original
nested = wrapped (not_found ∷ not_found ∷ []) (http "not found" 404)

abbrev syntax : GraphqlError
syntax = graphql_error "Syntax Error: Unexpected Name 'danger'" none none none missing

no_error_reported : should_report_error missing ≡ true
unfolding should_report_error
no_error_reported = refl

syntax_unreported : should_report_error (of_graphql syntax) ≡ false
unfolding should_report_error
syntax_unreported = refl

teapot_reported : should_report_error (http "an error" 418) ≡ true
unfolding should_report_error
teapot_reported = refl

nested_unreported : should_report_error nested ≡ false
unfolding should_report_error
nested_unreported = refl

code_matched : matched_code "Unexpected [extensions: { code: x extensions: { code: 404 }" ≡ some 404
unfolding matched_code
code_matched = refl

response_found : status_code_for_error (wrap not_found (server "underlying" (some 404))) ≡ some 404
unfolding status_code_for_error
response_found = refl

abbrev shown_path : List String → String
shown_path path = "[]"

positive_404 : 0 < 404
positive_404 = omega arith

no_code : matched_code "not found" ≡ none
unfolding matched_code
no_code = refl

abbrev parts : List Part
parts =
    record { outer = not_found; layers = []; message = "not found"; status = 404 }
    ∷ record { outer = not_found; layers = not_found ∷ []; message = "unauthorized"; status = 401 }
    ∷ []

parts_positive : All (λ (p : Part). 0 < p.status) parts
parts_positive = (omega arith, (omega arith, tt))
