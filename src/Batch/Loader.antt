-- ===== src/Batch/Loader.antt =====
-- The function that batchLoader returns, where batching is enabled: src/lib/loaders/batchLoader.ts.
-- DataLoader and JSON.stringify are parameters. A promise that rejects is `none`; of a value that a
-- promise has, `none` is undefined, and whether it is null is a parameter.
use metaphysics.Common.{
  String, Bool, true, not, Option, none, some, List, [], ◌∷◌, map, if◌then◌else◌, keep,
}
use metaphysics.Batch.{IdWithParams}

-- The uniqueness of keys for DataLoader.
unfoldable pub cache_key_fn : (IdWithParams → String) → IdWithParams → String
cache_key_fn stringify key = elim key.params [ [] ↦ key.id | p ∷ ps ↦ stringify key ]

-- A text, an object with or without ids, or something else.
pub data Key : Type 0 where
  text : String → Key
  object : Option (List String) → List (String × String) → Key
  invalid : Key

-- The promise of one object, of a list, what the multiple loader returns, or the error that is
-- thrown.
pub data Returned (D M : Type 0) : Type 0 where
  one : Option (Option D) → Returned D M
  several : Option (List (Option D)) → Returned D M
  from_multiple : M → Returned D M
  thrown : Returned D M

abbrev pub with_id : List (String × String) → String → IdWithParams
with_id params id = record { id = id; params = params }

module _ {D : Type 0} (is_null : D → Bool) where
  -- `result === undefined || result === null ? [] : [result]`
  abbrev pub as_list : Option D → List (Option D)
  as_list none = []
  as_list (some d) = if is_null d then [] else some d ∷ []

  -- `result !== null`
  abbrev pub is_not_null : Option D → Bool
  is_not_null none = true
  is_not_null (some d) = not (is_null d)

-- `then` on a promise.
abbrev pub then_list : {A D M : Type 0} → (A → List (Option D)) → Option A → Returned D M
then_list f none = several none
then_list f (some a) = several (some (f a))

-- The arguments are the test of null, `load` and `loadMany` of DataLoader, and the multiple loader.
unfoldable pub batch_loader :
    {D M : Type 0}
    → (D → Bool)
    → (IdWithParams → Option (Option D))
    → (List IdWithParams → Option (List (Option D)))
    → (List (String × String) → M)
    → Key
    → Returned D M
batch_loader is_null load load_many multiple (text id) = one (load (with_id [] id))
batch_loader is_null load load_many multiple (object none params) = from_multiple (multiple params)
batch_loader is_null load load_many multiple (object (some (id ∷ [])) params) =
    then_list (as_list is_null) (load (with_id params id))
batch_loader is_null load load_many multiple (object (some ids) params) =
    then_list (keep (is_not_null is_null)) (load_many (map (with_id params) ids))
batch_loader is_null load load_many multiple invalid = thrown
