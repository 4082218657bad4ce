-- ===== src/Batch/Returned.antt =====
-- What the loader answers, with the batches behind it.
use Prim.Native.Char.{code}
use mathlib.Core.Bool.{false≢true}
use metaphysics.Common.{
  String, Bool, true, false, not, Option, none, some, List, [], ◌∷◌, ◌++◌, map, ◌≡◌, refl, sym, ap,
  ◌∙◌, All, keep, ◌>>=◌, length, get_elem?, ◌==◌, Bool-cases, inl, inr, ◌≢◌, ◌⊎◌,
}
use metaphysics.Common.Kept.{keep-map}
use metaphysics.Batch.{IdWithParams, BatchedParams, Answer, array, value, load_all}
use metaphysics.Batch.Answers.{given_to, load_all-answers}
use metaphysics.Batch.Serialized.{PlainParams}
use mathlib.Core.List.{Perm}
use metaphysics.Batch.Loader.{
  cache_key_fn, Key, text, object, invalid, Returned, one, several, from_multiple, thrown, with_id,
  as_list, is_not_null, then_list, batch_loader,
}

-- Whether a text starts with a brace.
abbrev pub is_object_text : String → Bool
is_object_text String.[] = false
is_object_text (String.◌∷◌ c s) = code c == b'{'

-- Ids are not texts of JSON objects.
abbrev pub IsPlain : IdWithParams → Type 0
IsPlain key = is_object_text key.id ≡ false

-- JSON.stringify writes different keys differently, as objects.
pub record Stringifies (stringify : IdWithParams → String) : Type 0 where
  pub inj : (j k : IdWithParams) → stringify j ≡ stringify k → j ≡ k
  pub object_text : (k : IdWithParams) → is_object_text (stringify k) ≡ true

Params-cases :
    (params : List (String × String))
    → (params ≡ []) ⊎ ((p : String × String) × (ps : List (String × String)) × (params ≡ p ∷ ps))
Params-cases [] = inl refl
Params-cases (p ∷ ps) = inr (p, ps, refl)

module _ (stringify : IdWithParams → String) (json : Stringifies stringify) where
  key-alone : (k : IdWithParams) → k.params ≡ [] → cache_key_fn stringify k ≡ k.id
  unfolding cache_key_fn
  key-alone k e = rw (e, cache_key_fn) refl

  key-text :
      (k : IdWithParams) (p : String × String) (ps : List (String × String))
      → k.params ≡ p ∷ ps
      → cache_key_fn stringify k ≡ stringify k
  unfolding cache_key_fn
  key-text k p ps e = simp (e, cache_key_fn)

  id-ne-text : (j k : IdWithParams) → IsPlain j → j.id ≢ stringify k
  id-ne-text j k h e =
      false≢true (sym h ∙ (ap (λ (t : String). is_object_text t) e ∙ json.object_text k))

  -- Keys that DataLoader does not tell apart are equal.
  cache_key_fn_inj :
      (j k : IdWithParams)
      → IsPlain j
      → IsPlain k
      → cache_key_fn stringify j ≡ cache_key_fn stringify k
      → j ≡ k
  cache_key_fn_inj j k hj hk e = elim (Params-cases j.params) [
    | inl nj ↦ elim (Params-cases k.params) [
      | inl nk ↦
          let ids = sym (key-alone j nj) ∙ (e ∙ key-alone k nk) in
          let params = nj ∙ sym nk in λ i. record { id = ids i; params = params i }
      | inr (p, ps, pk) ↦
          absurd (id-ne-text j k hj (sym (key-alone j nj) ∙ (e ∙ key-text k p ps pk)))
    ]
    | inr (p, ps, pj) ↦ elim (Params-cases k.params) [
      | inl nk ↦ absurd (id-ne-text k j hk (sym (key-alone k nk) ∙ (sym e ∙ key-text j p ps pj)))
      | inr (q, qs, pk) ↦ json.inj j k (sym (key-text j p ps pj) ∙ (e ∙ key-text k q qs pk))
    ]
  ]

abbrev pub all_loaded :
    {D : Type 0} → (IdWithParams → Option (Option D)) → List IdWithParams → Option (List (Option D))
all_loaded load [] = some []
all_loaded load (key ∷ keys) = do v ← load key; vs ← all_loaded load keys; some (v ∷ vs)

-- A key is loaded by a batch of keys with plain parameters, which may hold one that DataLoader does
-- not tell apart from it: the promise has what the batch gives at that place.
abbrev pub IsBatched :
    {D : Type 0}
    → (IdWithParams → String)
    → (List IdWithParams → List (Option D))
    → (IdWithParams → Option (Option D))
    → IdWithParams
    → Type 0
IsBatched {D} stringify batch load key =
    (j : IdWithParams) × IsPlain j
    × (cache_key_fn stringify j ≡ cache_key_fn stringify key)
    × (before : List IdWithParams) × (after : List IdWithParams) × (v : Option D) × All
        (λ (k : IdWithParams). PlainParams k.params) (before ++ (j ∷ after))
    × (load key ≡ some v)
    × (get_elem? (batch (before ++ (j ∷ after))) (length before) ≡ some v)

get_elem?-map :
    {A B : Type 0} (f : A → B) (before : List A) (x : A) (after : List A)
    → get_elem? (map f (before ++ (x ∷ after))) (length before) ≡ some (f x)
get_elem?-map f [] x after = refl
get_elem?-map f (y ∷ before) x after = get_elem?-map f before x after

abbrev pub PlainIds : Key → Type 0
PlainIds (text id) = is_object_text id ≡ false
PlainIds (object (some ids) params) =
    All (λ (id : String). is_object_text id ≡ false) ids × PlainParams params
PlainIds _ = Unit {0}

module _ {D M : Type 0} (is_null : D → Bool) (given : String → List (String × String) → D)
    (list : List (String × String) → M) where
  abbrev pub wanted : List (String × String) → List String → List D
  wanted params ids = map (λ (id : String). given id params) ids

  -- What a client asks for: the answer of an id, or the answers of the ids that are not null.
  abbrev pub answers : Key → Returned D M
  answers (text id) = one (some (some (given id [])))
  answers (object none params) = from_multiple (list params)
  answers (object (some ids) params) =
      several (some (map some (keep (λ (d : D). not (is_null d)) (wanted params ids))))
  answers invalid = thrown

  as_list-keep :
      (d : D) → as_list is_null (some d) ≡ map some (keep (λ (x : D). not (is_null x)) (d ∷ []))
  as_list-keep d = elim (Bool-cases (is_null d)) [ inl e ↦ rw e refl | inr e ↦ rw e refl ]

  module _ (stringify : IdWithParams → String) (json : Stringifies stringify)
      (single : Option (String → Answer D)) (multiple : BatchedParams → Answer D)
      (single_answers : (f : String → Answer D)
        → single ≡ some f
        → (id : String) → f id ≡ value (given id []))
      (multiple_answers : (batch : BatchedParams)
        → multiple batch ≡ array (map (λ (id : String). given id batch.params) batch.id))
      (any_order : (id : String) (ps qs : List (String × String))
        → Perm ps qs
        → given id ps ≡ given id qs)
      (load : IdWithParams → Option (Option D))
      (load_many : List IdWithParams → Option (List (Option D)))
      (batched : (key : IdWithParams)
        → IsPlain key
        → PlainParams key.params
        → IsBatched stringify (load_all single multiple) load key)
      (many : (keys : List IdWithParams) → load_many keys ≡ all_loaded load keys) where
    load-answer :
        (key : IdWithParams)
        → IsPlain key
        → PlainParams key.params
        → load key ≡ some (some (given_to given key))
    load-answer key plain params =
        let (j, j_plain, same, before, after, v, all_plain, loaded, result) =
          batched key plain params in
        let eq : j ≡ key = cache_key_fn_inj stringify json j key j_plain plain same in
        let found : some v ≡ some (some (given_to given j)) =
          sym result
          ∙ (ap (λ (l : List (Option D)). get_elem? l (length before))
                (load_all-answers given single multiple single_answers multiple_answers any_order
                  (before ++ (j ∷ after)) all_plain)
              ∙ get_elem?-map (λ (k : IdWithParams). some (given_to given k)) before j after) in
        loaded ∙ (found ∙ ap (λ (k : IdWithParams). some (some (given_to given k))) eq)

    all_loaded-answers :
        (params : List (String × String)) (ids : List String)
        → PlainParams params
        → All (λ (id : String). is_object_text id ≡ false) ids
        → all_loaded load (map (with_id params) ids) ≡ some (map some (wanted params ids))
    all_loaded-answers params [] plain h = refl
    all_loaded-answers params (id ∷ ids) plain (h, hs) =
        rw (load-answer (with_id params id) h plain, all_loaded-answers params ids plain hs) refl

    -- A promise of the loader has what is asked for: a text's answer, and of an object with ids the
    -- answers that are not null, in the order of the ids, whether it is one id or several. The ids do
    -- not start with a brace, no name of a parameter has `=` or `&` in it, and no value `&`.
    -- JSON.stringify writes different keys differently, and as objects; DataLoader loads such a key
    -- in some batch of keys with such parameters, at the place of a key that it does not tell apart
    -- from it. The loaders answer every id, never with undefined: the single one without parameters,
    -- the multiple one in the order of the ids with the parameters of the batch, whose order makes no
    -- difference to an answer.
    pub batch_loader-answers :
        (key : Key) → PlainIds key → batch_loader is_null load load_many list key ≡ answers key
    unfolding batch_loader
    batch_loader-answers (text id) h = ap one (load-answer (with_id [] id) h tt)
    batch_loader-answers (object none params) h = refl
    batch_loader-answers (object (some []) params) h = rw (many []) refl
    batch_loader-answers (object (some (id ∷ [])) params) ((h, _), plain) =
        ap (then_list (as_list is_null)) (load-answer (with_id params id) h plain)
        ∙ ap (λ (l : List (Option D)). several (some l)) (as_list-keep (given id params))
    batch_loader-answers (object (some (id ∷ i ∷ ids)) params) (h, plain) =
        ap (then_list (keep (is_not_null is_null))) (
          many (map (with_id params) (id ∷ i ∷ ids))
          ∙ all_loaded-answers params (id ∷ i ∷ ids) plain h)
        ∙ ap (λ (l : List (Option D)). several (some l))
            (keep-map (is_not_null is_null) some (wanted params (id ∷ i ∷ ids)))
    batch_loader-answers invalid h = refl
