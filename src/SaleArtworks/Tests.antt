-- ===== src/SaleArtworks/Tests.antt =====
-- Batches of the repository's own tests.
use metaphysics.SaleArtworks.Promises.{EachOwn, get_promises-once}
use metaphysics.SaleArtworks.Wrapper.{key_string, no_promises, get_promise, get_promises}
use metaphysics.Common.{
  ℕ, Distinct, String, true, none, some, List, [], ◌∷◌, map, includes, All, length, str_eq, ◌≡◌,
  refl, if◌then◌else◌,
}
use metaphysics.SaleArtworks.{SaleArtworkKey, SaleArtwork, Loader, group_by_params, load_batch}
use metaphysics.SaleArtworks.Requests.{OneEach, is_asked, group_by_params-OneEach}
use metaphysics.SaleArtworks.Results.{EachAnswered, load_batch-answered}

abbrev key : String → String → SaleArtworkKey
key artwork_id sale_id = record { artwork_id = artwork_id; sale_id = sale_id }

abbrev keys : List SaleArtworkKey
keys = key "art1" "sale1" ∷ key "art2" "sale1" ∷ key "art3" "sale2" ∷ key "art1" "sale1" ∷ []

grouped :
    group_by_params keys
    ≡ record { sale_id = "sale1"; artwork_ids = "art1" ∷ "art2" ∷ [] }
      ∷ record { sale_id = "sale2"; artwork_ids = "art3" ∷ [] }
      ∷ []
unfolding group_by_params
grouped = refl

abbrev sale_artwork : String → String → SaleArtwork String
sale_artwork sale_id artwork_id = record { artwork_id = artwork_id; rest = sale_id }

-- The first sale's request fails.
abbrev loader : Loader String
loader sale_id ids size =
    if str_eq sale_id "sale1" then none else some (map (sale_artwork sale_id) ids)

others_answered :
    load_batch loader keys ≡ none ∷ none ∷ some (sale_artwork "sale2" "art3") ∷ none ∷ []
unfolding load_batch group_by_params
others_answered = refl

load_batch-answered_example :
    EachAnswered loader (group_by_params keys) keys (load_batch loader keys)
load_batch-answered_example = load_batch-answered loader keys

group_by_params-OneEach_example :
    OneEach (group_by_params keys)
    × All (λ (k : SaleArtworkKey). is_asked k (group_by_params keys) ≡ true) keys
group_by_params-OneEach_example = group_by_params-OneEach keys

-- A promise is told by its call and its key.
abbrev load : List SaleArtworkKey → SaleArtworkKey → ℕ × SaleArtworkKey
load calls k = (length calls, k)

one_promise :
    (get_promises load keys no_promises).0
    ≡ (0, key "art1" "sale1")
      ∷ (1, key "art2" "sale1")
      ∷ (2, key "art3" "sale2")
      ∷ (0, key "art1" "sale1")
      ∷ []
unfolding get_promise
one_promise = refl

get_promises-once_example :
    EachOwn
      (λ (p : ℕ × SaleArtworkKey) (k : SaleArtworkKey). p.1 ≡ k)
      (get_promises load keys no_promises).0
      keys
    × All
        (λ (k : SaleArtworkKey).
          includes (map key_string (get_promises load keys no_promises).1.calls) (key_string k)
          ≡ true)
        keys
    × Distinct (map key_string (get_promises load keys no_promises).1.calls)
get_promises-once_example =
    get_promises-once (λ (p : ℕ × SaleArtworkKey) (k : SaleArtworkKey). p.1 ≡ k) load
      (λ calls k. refl) keys (refl, (refl, (refl, (refl, tt))))
