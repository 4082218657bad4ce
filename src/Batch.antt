-- ===== src/Batch.antt =====
-- Batched loads: src/lib/loaders/batchLoader.ts, up to the function that DataLoader is given.
-- The parameters of a key are its entries but `id`, with their values as texts.
pub mod Serialized
pub mod Groups
pub mod Answers
pub mod Loader
pub mod Returned
mod Encoded
mod Tests
use Prim.Native.Nat.{Ordering}
use Prim.Native.String.{compare}
use metaphysics.Common.{
  ℕ, zero, suc, String, Bool, true, false, ◌&&◌, Option, none, some, List, [], ◌∷◌, ◌++◌, map,
  if◌then◌else◌, join, str_eq, ◌<>◌,
}

pub record IdWithParams : Type 0 where
  pub id : String
  pub params : List (String × String)

pub record BatchedParams : Type 0 where
  pub id : List String
  pub params : List (String × String)

abbrev pub goes_before : String → String → Bool
goes_before s t = elim (compare s t) [ Ordering.gt ↦ false | _ ↦ true ]

abbrev pub insert_text : String → List String → List String
insert_text s [] = s ∷ []
insert_text s (t ∷ ts) =
    let rest = insert_text s ts in if goes_before s t then s ∷ t ∷ ts else t ∷ rest

-- `texts.sort()`
abbrev pub sort_texts : List String → List String
sort_texts [] = []
sort_texts (s ∷ ts) = insert_text s (sort_texts ts)

unfoldable pub serialize_params : List (String × String) → String
serialize_params params =
    join "&" (sort_texts (map (λ (entry : String × String). entry.0 <> ("=" <> entry.1)) params))

abbrev pub params_of : IdWithParams → String
params_of key = serialize_params key.params

-- A group of `groupByParams` with its serialized parameters; it has at least one key.
pub record ParamGroup : Type 0 where
  pub name : String
  pub first : IdWithParams
  pub others : List IdWithParams

abbrev pub keys_of : ParamGroup → List IdWithParams
keys_of g = g.first ∷ g.others

-- A key goes to the end of its group, and a new group to the end of the groups.
abbrev pub add_key : IdWithParams → List ParamGroup → List ParamGroup
add_key key [] = record { name = params_of key; first = key; others = [] } ∷ []
add_key key (g ∷ groups) =
    let rest = add_key key groups in
    if str_eq g.name (params_of key)
    then record g { others = g.others ++ (key ∷ []) } ∷ groups
    else g ∷ rest

abbrev pub group_onto : List ParamGroup → List IdWithParams → List ParamGroup
group_onto groups [] = groups
group_onto groups (key ∷ keys) = group_onto (add_key key groups) keys

unfoldable pub group_by_params : List IdWithParams → List ParamGroup
group_by_params keys = group_onto [] keys

-- The parameters of the first key with all ids.
abbrev pub flattened_params : ParamGroup → BatchedParams
flattened_params g = record {
  id = map (λ (key : IdWithParams). key.id) (keys_of g);
  params = g.first.params;
}

-- What a loader answers: an array, or another value.
pub data Answer (D : Type 0) : Type 0 where
  array : List D → Answer D
  value : D → Answer D

abbrev pub reverse : {D : Type 0} → List D → List D
reverse [] = []
reverse (x ∷ xs) = reverse xs ++ (x ∷ [])

-- The stack of a group, of which `pop` takes the last element.
abbrev pub normalized : {D : Type 0} → Answer D → List D
normalized (array ds) = reverse ds
normalized (value d) = d ∷ []

abbrev pub pop : {D : Type 0} → List D → Option D × List D
pop [] = (none, [])
pop (d ∷ []) = (some d, [])
pop (d ∷ e ∷ ds) = let (last, rest) = pop (e ∷ ds) in (last, d ∷ rest)

-- The single loader, if there is one, for one id without parameters; otherwise the multiple
-- loader, which is told that the load is batched. The last two arguments are those of the batch.
abbrev pub load_by :
    {D : Type 0}
    → Option (String → Answer D)
    → (BatchedParams → Answer D)
    → BatchedParams
    → List String
    → List (String × String)
    → Answer D
load_by (some single) multiple batch (id ∷ []) [] = single id
load_by _ multiple batch _ _ = multiple batch

unfoldable pub load_group :
    {D : Type 0} → Option (String → Answer D) → (BatchedParams → Answer D) → ParamGroup → Answer D
load_group single multiple g =
    let batch = flattened_params g in load_by single multiple batch batch.id batch.params

-- The stacks by the name of their group.
abbrev pub Stacks : Type 0 → Type 0
Stacks D = List (String × List D)

unfoldable pub stacks_of :
    {D : Type 0}
    → Option (String → Answer D)
    → (BatchedParams → Answer D)
    → List ParamGroup
    → Stacks D
stacks_of single multiple groups =
    map (λ (g : ParamGroup). (g.name, normalized (load_group single multiple g))) groups

-- `normalizedData[groupIndex].pop()`: what it gives, and the stacks after it. Each key has a group.
abbrev pub pop_group : {D : Type 0} → String → Stacks D → Option D × Stacks D
pop_group name [] = (none, [])
pop_group name ((n, ds) ∷ stacks) =
    let (last, rest) = pop ds in
    let (found, later) = pop_group name stacks in
    if str_eq n name then (last, (n, rest) ∷ stacks) else (found, (n, ds) ∷ later)

-- The results in the order of the keys.
abbrev pub distribute : {D : Type 0} → List IdWithParams → Stacks D → List (Option D)
distribute [] stacks = []
distribute (key ∷ keys) stacks =
    let (result, rest) = pop_group (params_of key) stacks in result ∷ distribute keys rest

-- The function that DataLoader is given.
unfoldable pub load_all :
    {D : Type 0}
    → Option (String → Answer D)
    → (BatchedParams → Answer D)
    → List IdWithParams
    → List (Option D)
load_all single multiple keys = distribute keys (stacks_of single multiple (group_by_params keys))
