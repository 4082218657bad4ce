-- ===== src/Errors/Codes.antt =====
-- Which status codes an answer has among its extensions.
use metaphysics.Common.{
  map, ℕ, zero, suc, ◌<◌, ◌≡◌, refl, String, Bool, true, false, Option, none, some, List, [], ◌∷◌,
  All,
}
use metaphysics.Errors.{
  matched_code, push_status, to_list, non_empty_list, GraphqlError, graphql_error, Original, Errors,
  more, end, of_graphql, http, server, combined, walk, deepest_original_error,
  status_code_for_error, http_status_codes, formatted_graphql_error, graphql_error_handler,
  flatten_errors, alternate_status,
}

-- What each execution layer that an error crosses wraps around it.
pub record Layer : Type 0 where
  pub message : String
  pub locations : Option (List (ℕ × ℕ))
  pub path : Option (List String)
  pub stack : Option String

abbrev pub wrap : Layer → Original → GraphqlError
wrap l o = graphql_error l.message l.locations l.path l.stack o

-- An error within its layers, the outermost first.
abbrev pub wrapped : List Layer → Original → Original
wrapped [] o = o
wrapped (l ∷ layers) o = of_graphql (wrap l (wrapped layers o))

walk-wrapped :
    (layers : List Layer) (current : Original) (message : String) (status : ℕ)
    → walk current (wrapped layers (http message status)) ≡ http message status
walk-wrapped [] current message status = refl
walk-wrapped (l ∷ layers) current message status = walk-wrapped layers _ message status

-- An HTTP error of a service keeps its status through any number of layers: wrapped in one layer
-- or in more, its status code is the one that is found.
pub status-wrapped :
    (l : Layer) (layers : List Layer) (message : String) (status : ℕ)
    → 0 < status
    → status_code_for_error (wrap l (wrapped layers (http message status))) ≡ some status
unfolding status_code_for_error deepest_original_error
status-wrapped l [] message (suc s) h = refl
status-wrapped l (k ∷ layers) message (suc s) h =
    rw
      (walk-wrapped layers (of_graphql (wrap k (wrapped layers (http message (suc s))))) message
        (suc s))
      refl
status-wrapped l [] message zero h = elim h [ ]
status-wrapped l (k ∷ layers) message zero h = elim h [ ]

walk-server :
    (layers : List Layer) (current : Original) (message : String) (status : Option ℕ)
    → walk current (wrapped layers (server message status)) ≡ server message status
walk-server [] current message status = refl
walk-server (l ∷ layers) current message status = walk-server layers _ message status

-- Any other error with a response loses its status in two layers or more, unless the message of
-- the second layer holds a code: the status of a response is only looked up under one layer.
pub status-lost :
    (l k : Layer) (layers : List Layer) (message : String) (status : Option ℕ)
    → matched_code k.message ≡ none
    → status_code_for_error (wrap l (wrapped (k ∷ layers) (server message status))) ≡ none
unfolding status_code_for_error deepest_original_error alternate_status
status-lost l k layers message status h =
    rw
      (
        walk-server layers (of_graphql (wrap k (wrapped layers (server message status)))) message
            status,
        h,
      )
      refl

-- An HTTP error with its layers, of which it has at least one.
pub record Part : Type 0 where
  pub outer : Layer
  pub layers : List Layer
  pub message : String
  pub status : ℕ

abbrev pub part_error : Part → GraphqlError
part_error p = wrap p.outer (wrapped p.layers (http p.message p.status))

abbrev pub part_errors : List Part → Errors
part_errors [] = end
part_errors (p ∷ parts) = more (part_error p) (part_errors parts)

push_positive : (n : ℕ) (codes : List ℕ) → 0 < n → push_status (some n) codes ≡ n ∷ codes
push_positive zero codes h = elim h [ ]
push_positive (suc n) codes h = refl

codes-parts :
    (parts : List Part)
    → All (λ (p : Part). 0 < p.status) parts
    → http_status_codes (to_list (part_errors parts)) ≡ map (λ (p : Part). p.status) parts
unfolding http_status_codes
codes-parts [] h = refl
codes-parts (p ∷ parts) (h, hs) =
    rw (status-wrapped p.outer p.layers p.message p.status h, codes-parts parts hs)
      (push_positive p.status _ h)

-- The answer to a combined error of HTTP errors, each in any number of layers, has their status
-- codes in order among its extensions; without errors it has no extensions.
pub handler-combined_codes :
    (stringify : List String → String) (production enable_sentry : Bool) (l : Layer)
    (message : String) (parts : List Part)
    → All (λ (p : Part). 0 < p.status) parts
    → (graphql_error_handler stringify production enable_sentry
        (wrap l (combined message (part_errors parts)))).answer.http_status_codes
      ≡ non_empty_list (map (λ (p : Part). p.status) parts)
unfolding graphql_error_handler flatten_errors formatted_graphql_error
handler-combined_codes stringify production true l message parts h = rw (codes-parts parts h) refl
handler-combined_codes stringify production false l message parts h = rw (codes-parts parts h) refl
