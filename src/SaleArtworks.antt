-- ===== src/SaleArtworks.antt =====
-- Batched loads of sale artworks: src/lib/loaders/batchSaleArtworkLoader.ts.
-- The dictionary by sale is the list of its entries; only look-ups by the sale depend on it. What
-- the loader of sale artworks answers is a parameter, with `none` for a rejected promise.
pub mod Requests
pub mod Results
pub mod Wrapper
pub mod Promises
mod Tests
use mathlib.Core.Option
use metaphysics.Common.{
  ℕ, String, Bool, true, false, Option, none, some, List, [], ◌∷◌, ◌++◌, map, if◌then◌else◌, str_eq,
  includes, find, length,
}

pub record SaleArtworkKey : Type 0 where
  pub artwork_id : String
  pub sale_id : String

-- A sale with the ids of its artworks.
pub record SaleGroup : Type 0 where
  pub sale_id : String
  pub artwork_ids : List String

abbrev pub with_artwork : String → List String → List String
with_artwork artwork_id ids = if includes ids artwork_id then ids else ids ++ (artwork_id ∷ [])

-- One round of the `reduce`.
abbrev pub add_key : SaleArtworkKey → List SaleGroup → List SaleGroup
add_key key [] = record { sale_id = key.sale_id; artwork_ids = key.artwork_id ∷ [] } ∷ []
add_key key (g ∷ groups) =
    let rest = add_key key groups in
    if str_eq g.sale_id key.sale_id
    then record g { artwork_ids = with_artwork key.artwork_id g.artwork_ids } ∷ groups
    else g ∷ rest

abbrev pub add_keys : List SaleGroup → List SaleArtworkKey → List SaleGroup
add_keys groups [] = groups
add_keys groups (key ∷ keys) = add_keys (add_key key groups) keys

unfoldable pub group_by_params : List SaleArtworkKey → List SaleGroup
group_by_params keys = add_keys [] keys

-- A sale artwork, with what the code passes on.
pub record SaleArtwork (R : Type 0) : Type 0 where
  pub artwork_id : String
  pub rest : R

-- The request for the artworks of a sale: their ids, and their number as the size.
abbrev pub Loader : Type 0 → Type 0
Loader R = String → List String → ℕ → Option (List (SaleArtwork R))

abbrev pub Fetched : Type 0 → Type 0
Fetched R = List (Option (String × List (SaleArtwork R)))

-- `none` stands for the `{}` of a failed request.
abbrev pub fetch : {R : Type 0} → Loader R → SaleGroup → Option (String × List (SaleArtwork R))
fetch loader g =
    Option.map (λ sale_data. (g.sale_id, sale_data))
      (loader g.sale_id g.artwork_ids (length g.artwork_ids))

abbrev pub sale_data_of : {R : Type 0} → String → Fetched R → Option (List (SaleArtwork R))
sale_data_of sale_id [] = none
sale_data_of sale_id (none ∷ fetched) = sale_data_of sale_id fetched
sale_data_of sale_id (some (id, sale_data) ∷ fetched) =
    if str_eq id sale_id then some sale_data else sale_data_of sale_id fetched

abbrev pub artwork_in :
    {R : Type 0} → String → Option (List (SaleArtwork R)) → Option (SaleArtwork R)
artwork_in artwork_id none = none
artwork_in artwork_id (some sale_data) =
    find (λ datum. str_eq datum.artwork_id artwork_id) sale_data

-- The function that DataLoader is given.
unfoldable pub load_batch :
    {R : Type 0} → Loader R → List SaleArtworkKey → List (Option (SaleArtwork R))
load_batch loader keys =
    let fetched = map (fetch loader) (group_by_params keys) in
    map (λ (key : SaleArtworkKey). artwork_in key.artwork_id (sale_data_of key.sale_id fetched))
      keys
