-- ===== src/Search/Kept.antt =====
-- Which results the search keeps.
use mathlib.Core.Bool.{false≢true}
use mathlib.Core.Option
use mathlib.Core.Option.{none-ne-some}
use metaphysics.Common.{
  String, Bool, true, false, not, ◌&&◌, Option, none, some, List, [], ◌∷◌, ◌≡◌, refl, ap, sym, inl,
  inr, keep, any, includes, is_some, str_eq, if◌then◌else◌, Bool-cases, Option-cases,
}
use metaphysics.Common.Lookup.{or-false}
use metaphysics.Search.{
  SearchResult, Processed, entity, searchable_item, Context, fetch, process_search_result_item,
  process_all,
}

-- The results that stand for themselves, and the loaded objects, each with its type and highlights.
abbrev pub items_of : {A : Type 0} → List (Processed A) → List SearchResult
items_of [] = []
items_of (searchable_item result ∷ nodes) = result ∷ items_of nodes
items_of (entity typename response highlights ∷ nodes) = items_of nodes

abbrev pub entities_of : {A : Type 0} → List (Processed A) → List (String × A × Option String)
entities_of [] = []
entities_of (searchable_item result ∷ nodes) = entities_of nodes
entities_of (entity typename response highlights ∷ nodes) =
    (typename, response, highlights) ∷ entities_of nodes

-- The loaders of the types that have one.
abbrev pub loaders_of : {A : Type 0} → Context A → List (String × (String → Option A))
loaders_of context =
    ("Artist", context.artist) ∷ ("Artwork", context.artwork) ∷ ("Gene", context.gene) ∷ []

abbrev pub loader_in :
    {A : Type 0} → String → List (String × (String → Option A)) → Option (String → Option A)
loader_in type [] = none
loader_in type ((name, loader) ∷ loaders) =
    if str_eq type name then some loader else loader_in type loaders

abbrev pub answer_to : {A : Type 0} → String → Option (String → Option A) → Option A
answer_to id none = none
answer_to id (some loader) = loader id

module _ {A : Type 0} (context : Context A) (types : List String) where
  abbrev pub is_selected : SearchResult → Bool
  is_selected result = includes types result.label

  abbrev pub loader_of : SearchResult → Option (String → Option A)
  loader_of result = loader_in result.label (loaders_of context)

  -- The object is asked for, but no loader is configured.
  abbrev pub has_no_loader : SearchResult → Bool
  has_no_loader result = is_selected result && not (is_some (loader_of result))

  -- What the loader of its type answers to the id of each result of a selected type, where it
  -- answers something.
  abbrev pub loaded_objects : List SearchResult → List (String × A × Option String)
  loaded_objects [] = []
  loaded_objects (result ∷ results) =
      let rest = loaded_objects results in
      if is_selected result
      then elim (answer_to result.id (loader_of result)) [
        | none ↦ rest
        | some a ↦ (result.label, a, result.highlights) ∷ rest
      ]
      else rest

  -- The nodes are what is kept of the results.
  abbrev pub Keeps : List SearchResult → List (Processed A) → Type 0
  Keeps results nodes =
      (items_of nodes ≡ keep (λ (r : SearchResult). not (is_selected r)) results)
      × (entities_of nodes ≡ loaded_objects results)

  -- A result is fetched by the loader of its type.
  fetch_lem :
      (result : SearchResult)
      → fetch context result
        ≡ Option.map (λ (loader : String → Option A). loader result.id) (loader_of result)
  unfolding fetch
  fetch_lem result = elim (Bool-cases (str_eq result.label "Artist")) [
    | inl a ↦ rw (a, fetch) refl
    | inr a ↦ elim (Bool-cases (str_eq result.label "Artwork")) [
      | inl b ↦ rw (a, b, fetch) refl
      | inr b ↦ elim (Bool-cases (str_eq result.label "Gene")) [
        | inl c ↦ rw (a, b, c, fetch) refl
        | inr c ↦ rw (a, b, c, fetch) refl
      ]
    ]
  ]

  -- If every selected type of a result has a loader, the search answers: the results of other types
  -- stand for themselves; of those of a selected type there are the objects that the loader of the
  -- type answers to their ids, with the type and the highlights of the result; each in the order of
  -- the results, and only those whose object is not found are left out.
  pub process_all-Keeps :
      (results : List SearchResult)
      → any has_no_loader results ≡ false
      → (nodes : List (Processed A)) × (process_all context types results ≡ some nodes)
        × Keeps results nodes
  unfolding process_all process_search_result_item
  process_all-Keeps [] h = ([], refl, (refl, refl))
  process_all-Keeps (result ∷ results) h =
      let (here, later) = or-false (has_no_loader result) (any has_no_loader results) h in
      let (nodes, e, (items, objects)) = process_all-Keeps results later in
      elim (Bool-cases (is_selected result)) [
        | inr s ↦ (
          searchable_item result ∷ nodes,
          rw (s, e) refl,
          (rw s (ap (λ (l : List SearchResult). result ∷ l) items), rw s objects),
        )
        | inl s ↦ elim (Option-cases (loader_of result)) [
          | inl f ↦ absurd (false≢true (sym (rw (s, f) at here)))
          | inr (loader, f) ↦ elim (Option-cases (loader result.id)) [
            | inl n ↦
                (nodes, rw (s, fetch_lem result, f, n, e) refl, (rw s items, rw (s, f, n) objects))
            | inr (response, n) ↦ (
              entity result.label response result.highlights ∷ nodes,
              rw (s, fetch_lem result, f, n, e) refl,
              (
                rw s items,
                rw (s, f, n)
                    (ap
                      (λ (l : List (String × A × Option String)).
                        (result.label, response, result.highlights) ∷ l)
                      objects),
              ),
            )
          ]
        ]
      ]

  processed-has_loader :
      (result : SearchResult) (item : Option (Processed A))
      → process_search_result_item context types result ≡ some item
      → has_no_loader result ≡ false
  unfolding process_search_result_item
  processed-has_loader result item e = elim (Bool-cases (is_selected result)) [
    | inr s ↦ rw s refl
    | inl s ↦ elim (Option-cases (loader_of result)) [
      | inl f ↦ absurd (none-ne-some _ (rw (s, fetch_lem result, f) at e))
      | inr (loader, f) ↦ rw (s, f) refl
    ]
  ]

  -- One result of a selected type without a loader fails the whole search.
  pub process_all-fails :
      (results : List SearchResult)
      → any has_no_loader results ≡ true
      → process_all context types results ≡ none
  unfolding process_all
  process_all-fails [] h = absurd (false≢true h)
  process_all-fails (result ∷ results) h =
      elim (Option-cases (process_search_result_item context types result)) [
        | inl p ↦ rw p refl
        | inr (item, p) ↦
            let rest = process_all-fails results (rw (processed-has_loader result item p) at h) in
            rw (p, rest) refl
      ]
