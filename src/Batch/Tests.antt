-- ===== src/Batch/Tests.antt =====
-- A batch of keys in groups of their parameters.
use metaphysics.Batch.Encoded.{encoded, encoded-Stringifies}
use metaphysics.Batch.Loader.{Key, object, several, batch_loader}
use metaphysics.Batch.Returned.{IsPlain, IsBatched, all_loaded, answers, batch_loader-answers}
use metaphysics.Common.{
  Bool, true, false, ◌||◌, ◌&&◌, if◌then◌else◌, ◌∙◌, All, str_eq, get_elem?, String, Option, none,
  some, List, [], ◌∷◌, map, ◌≡◌, refl, sym, ap, ◌<>◌,
}
use metaphysics.Batch.{
  IdWithParams, BatchedParams, serialize_params, ParamGroup, group_by_params, Answer, array, value,
  load_all, stacks_of, load_group,
}
use metaphysics.Batch.Answers.{given_to, load_all-answers}
use metaphysics.Batch.Serialized.{PlainParams}
use mathlib.Core.List.{Perm, Permᴰ}
use mathlib.Core.Bool.{Bool-set}
use mathlib.Core.Logic.{∥∥₁_elim}

abbrev key : String → List (String × String) → IdWithParams
key id params = record { id = id; params = params }

abbrev keys : List IdWithParams
keys =
    key "a" (("live", "true") ∷ [])
    ∷ key "b" []
    ∷ key "c" (("live", "true") ∷ [])
    ∷ key "a" (("size", "1") ∷ ("live", "true") ∷ [])
    ∷ []

sorted : serialize_params (("size", "1") ∷ ("live", "true") ∷ []) ≡ "live=true&size=1"
unfolding serialize_params
sorted = refl

three_groups :
    map (λ (g : ParamGroup). g.name) (group_by_params keys)
    ≡ "live=true" ∷ "" ∷ "live=true&size=1" ∷ []
unfolding group_by_params serialize_params
three_groups = refl

-- Answers depend on the value of a parameter `size`, wherever it stands.
abbrev is_two : String × String → Bool
is_two entry = str_eq entry.0 "size" && str_eq entry.1 "2"

abbrev has_two : List (String × String) → Bool
has_two [] = false
has_two (entry ∷ params) = is_two entry || has_two params

abbrev given : String → List (String × String) → String
given id params = if has_two params then id <> "?large" else id <> "?small"

abbrev single : Option (String → Answer String)
single = some (λ (id : String). value (id <> "?small"))

abbrev multiple : BatchedParams → Answer String
multiple batch = array (map (λ (id : String). given id batch.params) batch.id)

has_two-cons :
    (p q : String × String) (ps qs : List (String × String))
    → p ≡ q
    → has_two ps ≡ has_two qs
    → has_two (p ∷ ps) ≡ has_two (q ∷ qs)
has_two-cons p q ps qs e h = rw (e, h) refl

or_swap : (a b c : Bool) → a || (b || c) ≡ b || (a || c)
or_swap true true c = refl
or_swap true false c = refl
or_swap false b c = refl

has_two-perm : (ps qs : List (String × String)) → Permᴰ ps qs → has_two ps ≡ has_two qs
has_two-perm _ _ Permᴰ.nil = refl
has_two-perm _ _ (Permᴰ.cons {a = a} {b = b} {l₁ = ps} {l₂ = qs} e d) =
    has_two-cons a b ps qs e (has_two-perm ps qs d)
has_two-perm _ _ (Permᴰ.swap {a = a} {b = b} {a' = c} {b' = d} {l = ps} e₁ e₂) =
    or_swap (is_two a) (is_two b) (has_two ps)
    ∙ has_two-cons b c (a ∷ ps) (d ∷ ps) e₂ (has_two-cons a d ps ps e₁ refl)
has_two-perm _ _ (Permᴰ.trans {l₁ = ps} {l₂ = qs} {l₃ = rs} d e) =
    has_two-perm ps qs d ∙ has_two-perm qs rs e

any_order : (id : String) (ps qs : List (String × String)) → Perm ps qs → given id ps ≡ given id qs
any_order id ps qs p =
    ap (λ (two : Bool). if two then id <> "?large" else id <> "?small")
      (∥∥₁_elim p (Bool-set (has_two ps) (has_two qs)) (has_two-perm ps qs))

abbrev called : Option (String → Answer String) → String → Answer String
called none id = array []
called (some f) id = f id

single_answers :
    (f : String → Answer String) → single ≡ some f → (id : String) → f id ≡ value (given id [])
single_answers f h id = ap (λ (o : Option (String → Answer String)). called o id) (sym h)

abbrev sized_keys : List IdWithParams
sized_keys =
    key "a" (("size", "1") ∷ [])
    ∷ key "a" (("size", "2") ∷ ("live", "true") ∷ [])
    ∷ key "b" []
    ∷ key "c" (("live", "true") ∷ ("size", "2") ∷ [])
    ∷ []

sized_keys-plain : All (λ (k : IdWithParams). PlainParams k.params) sized_keys
sized_keys-plain = (
  ((refl, refl, refl), tt),
  (
    ((refl, refl, refl), ((refl, refl, refl), tt)),
    (tt, (((refl, refl, refl), ((refl, refl, refl), tt)), tt)),
  ),
)

load_all-answers_example :
    load_all single multiple sized_keys
    ≡ map (λ (k : IdWithParams). some (given_to given k)) sized_keys
load_all-answers_example =
    load_all-answers given single multiple single_answers (λ batch. refl) any_order sized_keys
      sized_keys-plain

sizes_apart :
    load_all single multiple sized_keys
    ≡ some "a?small" ∷ some "a?large" ∷ some "b?small" ∷ some "c?large" ∷ []
unfolding load_all stacks_of load_group group_by_params serialize_params
sizes_apart = refl

-- Every key by itself in a batch.
abbrev load : IdWithParams → Option (Option String)
load k = some (some (given_to given k))

abbrev load_many : List IdWithParams → Option (List (Option String))
load_many ks = all_loaded load ks

batched :
    (k : IdWithParams)
    → IsPlain k
    → PlainParams k.params
    → IsBatched encoded (load_all single multiple) load k
batched k plain params = (
  k,
  plain,
  refl,
  [],
  [],
  some (given_to given k),
  (params, tt),
  refl,
  ap (λ (l : List (Option String)). get_elem? l 0)
      (load_all-answers given single multiple single_answers (λ batch. refl) any_order (k ∷ [])
        (params, tt)),
)

abbrev no_object : String → Bool
no_object d = str_eq d "b?large"

abbrev listed : List (String × String) → String
listed params = "all"

abbrev asked_key : Key
asked_key = object (some ("a" ∷ "b" ∷ "c" ∷ [])) (("live", "true") ∷ ("size", "2") ∷ [])

batch_loader-answers_example :
    batch_loader no_object load load_many listed asked_key
    ≡ answers no_object given listed asked_key
batch_loader-answers_example =
    batch_loader-answers no_object given listed encoded encoded-Stringifies single multiple
      single_answers (λ batch. refl) any_order load load_many batched (λ ks. refl) asked_key
      ((refl, (refl, (refl, tt))), ((refl, refl, refl), ((refl, refl, refl), tt)))

null_left_out :
    batch_loader no_object load load_many listed asked_key
    ≡ several (some (some "a?large" ∷ some "c?large" ∷ []))
unfolding batch_loader
null_left_out = refl
