-- ===== src/SaleArtworks/Wrapper.antt =====
-- The function that createBatchSaleArtworkLoader returns: src/lib/loaders/batchSaleArtworkLoader.ts.
-- DataLoader is a parameter: what `dataLoader.load` gives for a key, after the keys of the calls
-- that were made before. Promises are of an abstract type.
use metaphysics.Common.{
  String, Option, none, some, List, [], ◌∷◌, ◌++◌, if◌then◌else◌, str_eq, ◌<>◌,
}
use metaphysics.SaleArtworks.{SaleArtworkKey}

abbrev pub key_string : SaleArtworkKey → String
key_string key = key.artwork_id <> ("-" <> key.sale_id)

-- `promiseCache`, its newest entry first, and the keys that DataLoader was asked for, in order.
pub record Wrapper (P : Type 0) : Type 0 where
  pub promise_cache : List (String × P)
  pub calls : List SaleArtworkKey

abbrev pub no_promises : {P : Type 0} → Wrapper P
no_promises = record { promise_cache = []; calls = [] }

abbrev pub cached : {P : Type 0} → String → List (String × P) → Option P
cached key_string [] = none
cached key_string ((k, promise) ∷ entries) =
    if str_eq k key_string then some promise else cached key_string entries

module _ {P : Type 0} (load : List SaleArtworkKey → SaleArtworkKey → P) where
  unfoldable pub get_promise : SaleArtworkKey → Wrapper P → P × Wrapper P
  get_promise key w = elim (cached (key_string key) w.promise_cache) [
    | some promise ↦ (promise, w)
    | none ↦ (
      load w.calls key,
      record {
        promise_cache = (key_string key, load w.calls key) ∷ w.promise_cache;
        calls = w.calls ++ (key ∷ []);
      },
    )
  ]

  -- One call after the other.
  abbrev pub get_promises : List SaleArtworkKey → Wrapper P → List P × Wrapper P
  get_promises [] w = ([], w)
  get_promises (key ∷ keys) w =
      let (promise, w') = get_promise key w in
      let (promises, w'') = get_promises keys w' in (promise ∷ promises, w'')
