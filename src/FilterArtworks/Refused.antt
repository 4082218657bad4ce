-- ===== src/FilterArtworks/Refused.antt =====
-- What the resolver refuses.
use metaphysics.Common.{ℕ, ◌≤◌, Bool, true, false, Option, ◌≡◌, ◌≢◌}
use mathlib.Core.Option
use metaphysics.Common.Json.{Json, number, text, array, Items, Fields, lookup}
use metaphysics.FilterArtworks.Checks.{item_count, is_missing_page, has_hybrid_args}
use metaphysics.FilterArtworks.Query.{Query}
use metaphysics.FilterArtworks.Connection.{Resolved, connected}

-- The options that are accepted.
abbrev pub IsChecked : Fields → Type 0
IsChecked options =
    (is_missing_page options ≡ false)
    × (lookup "price_range" options ≢ text "*-1")
    × ((n : ℕ) → lookup "hybrid_neural_k" options ≡ number n → (1 ≤ n) × (n ≤ 200))
    × ((n : ℕ) → lookup "hybrid_pagination_depth" options ≡ number n → (1 ≤ n) × (n ≤ 10000))
    × ((items : Items) → lookup "hybrid_weights" options ≡ array items → item_count items ≡ 2)
    × (has_hybrid_args options ≡ true → lookup "variant" options ≡ text "hybrid")

-- The query of a connection.
abbrev pub query_of : Query → Resolved → Query
query_of query (connected c) = c.query
query_of query _ = query
