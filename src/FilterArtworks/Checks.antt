-- ===== src/FilterArtworks/Checks.antt =====
-- The checks of the filter's arguments.
use metaphysics.Common.{
  ℕ, suc, String, Bool, false, not, ◌&&◌, ◌||◌, Option, none, some, if◌then◌else◌, ltb, ◌==◌,
  str_eq,
}
use metaphysics.Common.Json.{Json, number, text, array, Items, nil, cons, Fields, lookup}
use metaphysics.FilterArtworks.{is_nullish}

-- `value === s`
abbrev pub is_text : String → Json → Bool
is_text s (text t) = str_eq t s
is_text s _ = false

-- `value != null && (value < lo || value > hi)`
abbrev pub is_outside : ℕ → ℕ → Json → Bool
is_outside lo hi (number n) = ltb n lo || ltb hi n
is_outside lo hi _ = false

abbrev pub item_count : Items → ℕ
item_count nil = 0
item_count (cons item items) = suc (item_count items)

-- `value != null && value.length !== n`
abbrev pub has_other_length : ℕ → Json → Bool
has_other_length n (array items) = not (item_count items == n)
has_other_length n _ = false

abbrev pub is_missing_page : Fields → Bool
is_missing_page options =
    is_nullish (lookup "first" options)
    && (is_nullish (lookup "last" options) && is_nullish (lookup "size" options))

abbrev pub has_hybrid_args : Fields → Bool
has_hybrid_args options =
    not (is_nullish (lookup "hybrid_neural_k" options))
    || (not (is_nullish (lookup "hybrid_weights" options))
        || not (is_nullish (lookup "hybrid_pagination_depth" options)))

-- The message of the exception, if there is one.
unfoldable pub refusal : Fields → Option String
refusal options =
    if is_missing_page options
    then some "You must pass either `first`, `last` or `size`."
    else if is_text "*-1" (lookup "price_range" options)
    then some "Invalid input"
    else if has_hybrid_args options && not (is_text "hybrid" (lookup "variant" options))
    then some
        "`hybridNeuralK`, `hybridWeights`, and `hybridPaginationDepth` can only be used when `variant` is \"hybrid\"."
    else if is_outside 1 200 (lookup "hybrid_neural_k" options)
    then some "`hybridNeuralK` must be between 1 and 200."
    else if is_outside 1 10000 (lookup "hybrid_pagination_depth" options)
    then some "`hybridPaginationDepth` must be between 1 and 10000."
    else if has_other_length 2 (lookup "hybrid_weights" options)
    then some "`hybridWeights` must contain exactly two floats."
    else none
