-- ===== src/Batch/Answers.antt =====
-- Every key of a batch gets its own answer.
use mathlib.Core.List.{Perm}
use mathlib.Core.Path.{subst}
use metaphysics.Common.{
  String, Option, none, some, List, [], ◌∷◌, map, ◌≡◌, refl, sym, ap, ◌∙◌, str_eq, eq_iff,
  Bool-cases, inl, inr, All,
}
use metaphysics.Batch.{
  IdWithParams, BatchedParams, serialize_params, params_of, ParamGroup, keys_of, group_by_params,
  flattened_params, Answer, array, value, reverse, normalized, load_by, load_group, Stacks,
  stacks_of, pop_group, distribute, load_all,
}
use metaphysics.Batch.Serialized.{PlainParams, read_params, read_params-serialize}
use metaphysics.Batch.Groups.{
  same, group_at, stack_at, group_by_params-same, IsNamed, Onto-IsNamed, pop_group-last,
  pop_group-other, same-own, same-other,
}

module _ {D : Type 0} (given : String → List (String × String) → D) where
  -- The answer to an id and serialized parameters, as they are read, and to a key.
  abbrev answer : String → String → D
  answer id name = given id (read_params name)

  abbrev answer_of : IdWithParams → D
  answer_of key = answer key.id (params_of key)

  -- The answer to the id of a key, with its parameters.
  abbrev pub given_to : IdWithParams → D
  given_to key = given key.id key.params

  map-named :
      (name : String) (keys : List IdWithParams)
      → All (λ (key : IdWithParams). params_of key ≡ name) keys
      → map (λ (id : String). answer id name) (map (λ (key : IdWithParams). key.id) keys)
        ≡ map answer_of keys
  map-named name [] h = refl
  map-named name (key ∷ keys) (h, hs) = rw (h, map-named name keys hs) refl

  load_by-answers :
      (single : Option (String → Answer D)) (multiple : BatchedParams → Answer D)
      → ((f : String → Answer D)
          → single ≡ some f
          → (id : String) → f id ≡ value (answer id (serialize_params [])))
      → (batch : BatchedParams) (id : String) (ids : List String) (params : List (String × String))
      → multiple batch ≡ array (map (λ (i : String). answer i (serialize_params params)) (id ∷ ids))
      → normalized (load_by single multiple batch (id ∷ ids) params)
        ≡ reverse (map (λ (i : String). answer i (serialize_params params)) (id ∷ ids))
  load_by-answers none multiple hs batch id ids params h = rw h refl
  load_by-answers (some f) multiple hs batch id [] [] h = rw (hs f refl id) refl
  load_by-answers (some f) multiple hs batch id [] (p ∷ ps) h = rw h refl
  load_by-answers (some f) multiple hs batch id (i ∷ ids) params h = rw h refl

  module _ (single : Option (String → Answer D)) (multiple : BatchedParams → Answer D)
      (single_answers : (f : String → Answer D)
        → single ≡ some f
        → (id : String) → f id ≡ value (given id []))
      (multiple_answers : (batch : BatchedParams)
        → multiple batch ≡ array (map (λ (id : String). given id batch.params) batch.id))
      (any_order : (id : String) (ps qs : List (String × String))
        → Perm ps qs
        → given id ps ≡ given id qs) where
    read_answer :
        (id : String) (ps : List (String × String))
        → PlainParams ps
        → given id ps ≡ answer id (serialize_params ps)
    read_answer id ps h = sym (any_order id _ ps (read_params-serialize ps h))

    map-read :
        (ids : List String) (ps : List (String × String))
        → PlainParams ps
        → map (λ (id : String). given id ps) ids
          ≡ map (λ (id : String). answer id (serialize_params ps)) ids
    map-read [] ps h = refl
    map-read (id ∷ ids) ps h = rw (read_answer id ps h, map-read ids ps h) refl

    group_answers :
        (g : ParamGroup)
        → IsNamed g
        → normalized (load_group single multiple g) ≡ reverse (map answer_of (keys_of g))
    unfolding load_group
    group_answers g (f, plain, os) =
        load_by-answers single multiple
          (λ s e id. single_answers s e id ∙ ap value (read_answer id [] tt)) (flattened_params g)
          g.first.id (map (λ (key : IdWithParams). key.id) g.others) g.first.params
          (multiple_answers (flattened_params g)
            ∙ ap array
                (map-read (map (λ (key : IdWithParams). key.id) (keys_of g)) g.first.params plain))
        ∙ ap reverse (
            ap
              (λ (name : String).
                map (λ (id : String). answer id name)
                  (map (λ (key : IdWithParams). key.id) (keys_of g)))
              f
            ∙ map-named g.name (keys_of g) (f, os))

    stack_at-answers :
        (name : String) (groups : List ParamGroup)
        → All IsNamed groups
        → stack_at name (stacks_of single multiple groups)
          ≡ reverse (map answer_of (group_at name groups))
    unfolding stacks_of
    stack_at-answers name [] h = refl
    stack_at-answers name (g ∷ groups) (h, hs) = elim (Bool-cases (str_eq g.name name)) [
      | inl e ↦ rw e (group_answers g h)
      | inr e ↦ rw e (stack_at-answers name groups hs)
    ]

    -- After the pop for a key the stacks are those of the other keys.
    rest_lem :
        (key : IdWithParams) (keys : List IdWithParams) (stacks : Stacks D)
        → ((name : String)
            → stack_at name stacks ≡ reverse (map answer_of (same name (key ∷ keys))))
        → stack_at (params_of key) (pop_group (params_of key) stacks).1
          ≡ reverse (map answer_of (same (params_of key) keys))
        → (name : String)
        → stack_at name (pop_group (params_of key) stacks).1
          ≡ reverse (map answer_of (same name keys))
    rest_lem key keys stacks h own name = elim (Bool-cases (str_eq (params_of key) name)) [
      | inl e ↦
          subst
            (λ (n : String).
              stack_at n (pop_group (params_of key) stacks).1
              ≡ reverse (map answer_of (same n keys)))
            ((eq_iff (params_of key) name).0 e) own
      | inr e ↦
          pop_group-other (params_of key) name stacks e
          ∙ (h name
              ∙ ap (λ (ks : List IdWithParams). reverse (map answer_of ks))
                  (same-other key keys name e))
    ]

    results_lem :
        (keys : List IdWithParams) (stacks : Stacks D)
        → ((name : String) → stack_at name stacks ≡ reverse (map answer_of (same name keys)))
        → distribute keys stacks ≡ map (λ (key : IdWithParams). some (answer_of key)) keys
    results_lem [] stacks h = refl
    results_lem (key ∷ keys) stacks h =
        let own =
          h (params_of key)
          ∙ ap (λ (ks : List IdWithParams). reverse (map answer_of ks)) (same-own key keys) in
        let popped = pop_group-last (params_of key) stacks _ _ own in
        ap (λ (r : Option D). r ∷ distribute keys (pop_group (params_of key) stacks).1) popped.0
        ∙ ap (λ (rs : List (Option D)). some (answer_of key) ∷ rs)
            (results_lem keys (pop_group (params_of key) stacks).1
              (rest_lem key keys stacks h popped.1))

    plain_answers :
        (keys : List IdWithParams)
        → All (λ (key : IdWithParams). PlainParams key.params) keys
        → map (λ (key : IdWithParams). some (answer_of key)) keys
          ≡ map (λ (key : IdWithParams). some (given_to key)) keys
    plain_answers [] h = refl
    plain_answers (key ∷ keys) (h, hs) =
        rw (read_answer key.id key.params h, plain_answers keys hs) refl

    -- A batch of keys gives each key its own answer, in the order of the keys: if the single loader
    -- gives the answer to an id without parameters, the multiple loader the answers to all ids, in
    -- their order, with the parameters that they share, and the order of parameters makes no
    -- difference to an answer. No name of a parameter has `=` or `&` in it, and no value `&`.
    pub load_all-answers :
        (keys : List IdWithParams)
        → All (λ (key : IdWithParams). PlainParams key.params) keys
        → load_all single multiple keys ≡ map (λ (key : IdWithParams). some (given_to key)) keys
    unfolding load_all group_by_params
    load_all-answers keys plain =
        results_lem keys (stacks_of single multiple (group_by_params keys)) (λ name.
          stack_at-answers name (group_by_params keys) (Onto-IsNamed [] keys tt plain)
          ∙ ap (λ (ks : List IdWithParams). reverse (map answer_of ks))
              (group_by_params-same name keys))
        ∙ plain_answers keys plain
