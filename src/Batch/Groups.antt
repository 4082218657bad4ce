-- ===== src/Batch/Groups.antt =====
-- How keys are grouped by their parameters, and how answers are taken from the stacks of groups.
use mathlib.Core.Bool.{false≢true}
use mathlib.Core.List.{nil≢cons, append-nil, append_assoc}
use metaphysics.Common.{
  String, true, false, some, List, [], ◌∷◌, ◌++◌, ◌≡◌, refl, sym, ap, ◌∙◌, if◌then◌else◌, str_eq,
  eq_iff, Bool-cases, inl, inr, All, keep,
}
use metaphysics.Batch.Serialized.{PlainParams}
use metaphysics.Batch.{
  IdWithParams, params_of, ParamGroup, keys_of, add_key, group_onto, group_by_params, pop, Stacks,
  pop_group,
}

-- The keys with the same serialized parameters.
abbrev pub same : String → List IdWithParams → List IdWithParams
same name keys = keep (λ (key : IdWithParams). str_eq (params_of key) name) keys

-- The keys of the group of a name, and the stack of a name.
abbrev pub group_at : String → List ParamGroup → List IdWithParams
group_at name [] = []
group_at name (g ∷ groups) = if str_eq g.name name then keys_of g else group_at name groups

abbrev pub stack_at : {D : Type 0} → String → Stacks D → List D
stack_at name [] = []
stack_at name ((n, ds) ∷ stacks) = if str_eq n name then ds else stack_at name stacks

str_eq_refl : (s : String) → str_eq s s ≡ true
str_eq_refl s = (eq_iff s s).1 refl

joined : (a b name : String) → str_eq a name ≡ true → str_eq b name ≡ true → str_eq a b ≡ true
joined a b name h k = (eq_iff a b).1 ((eq_iff a name).0 h ∙ sym ((eq_iff b name).0 k))

group_at-add :
    (name : String) (key : IdWithParams) (groups : List ParamGroup)
    → group_at name (add_key key groups)
      ≡ group_at name groups ++ (if str_eq (params_of key) name then key ∷ [] else [])
group_at-add name key [] = refl
group_at-add name key (g ∷ groups) = elim (Bool-cases (str_eq g.name (params_of key))) [
  | inl e ↦
      (let moved = ap (λ (n : String). str_eq n name) ((eq_iff g.name (params_of key)).0 e) in
        elim (Bool-cases (str_eq (params_of key) name)) [
          | inl h ↦ rw (e, moved, h) refl
          | inr h ↦ rw (e, moved, h) (sym (append-nil (group_at name groups)))
        ])
  | inr e ↦ elim (Bool-cases (str_eq g.name name)) [
    | inl h ↦ elim (Bool-cases (str_eq (params_of key) name)) [
      | inl k ↦ absurd (false≢true (sym e ∙ joined g.name (params_of key) name h k))
      | inr k ↦ rw (e, h, k) (sym (append-nil (keys_of g)))
    ]
    | inr h ↦ rw (e, h) (group_at-add name key groups)
  ]
]

pop-last : {D : Type 0} (ds : List D) (d : D) → pop (ds ++ (d ∷ [])) ≡ (some d, ds)
pop-last [] d = refl
pop-last (e ∷ []) d = refl
pop-last (e ∷ f ∷ ds) d = rw (pop-last (f ∷ ds) d) refl

same-cons :
    (name : String) (key : IdWithParams) (keys : List IdWithParams)
    → (if str_eq (params_of key) name then key ∷ [] else []) ++ same name keys
      ≡ same name (key ∷ keys)
same-cons name key keys = elim (Bool-cases (str_eq (params_of key) name)) [
  | inl h ↦ rw h refl
  | inr h ↦ rw h refl
]

-- The group of a name has the keys with that name, in their order.
group_at-onto :
    (name : String) (groups : List ParamGroup) (keys : List IdWithParams)
    → group_at name (group_onto groups keys) ≡ group_at name groups ++ same name keys
group_at-onto name groups [] = sym (append-nil (group_at name groups))
group_at-onto name groups (key ∷ keys) =
    group_at-onto name (add_key key groups) keys
    ∙ ap (λ (ks : List IdWithParams). ks ++ same name keys) (group_at-add name key groups)
    ∙ append_assoc (group_at name groups) _ (same name keys)
    ∙ ap (λ (ks : List IdWithParams). group_at name groups ++ ks) (same-cons name key keys)

pub same-own :
    (key : IdWithParams) (keys : List IdWithParams)
    → same (params_of key) (key ∷ keys) ≡ key ∷ same (params_of key) keys
same-own key keys = rw (str_eq_refl (params_of key)) refl

pub same-other :
    (key : IdWithParams) (keys : List IdWithParams) (name : String)
    → str_eq (params_of key) name ≡ false
    → same name (key ∷ keys) ≡ same name keys
same-other key keys name h = rw h refl

-- A name whose stack ends in `d`: that is popped, and the other stacks are as before.
pub pop_group-last :
    {D : Type 0} (name : String) (stacks : Stacks D) (ds : List D) (d : D)
    → stack_at name stacks ≡ ds ++ (d ∷ [])
    → ((pop_group name stacks).0 ≡ some d) × (stack_at name (pop_group name stacks).1 ≡ ds)
pop_group-last name [] [] d h = absurd (nil≢cons h)
pop_group-last name [] (x ∷ ds) d h = absurd (nil≢cons h)
pop_group-last name ((n, es) ∷ stacks) ds d h = elim (Bool-cases (str_eq n name)) [
  | inl e ↦ (let last = ap pop (rw e at h) ∙ pop-last ds d in rw (e, last, e) (refl, refl))
  | inr e ↦ rw (e, e) (pop_group-last name stacks ds d (rw e at h))
]

pub pop_group-other :
    {D : Type 0} (name other : String) (stacks : Stacks D)
    → str_eq name other ≡ false
    → stack_at other (pop_group name stacks).1 ≡ stack_at other stacks
pop_group-other name other [] h = refl
pop_group-other name other ((n, es) ∷ stacks) h = elim (Bool-cases (str_eq n name)) [
  | inl e ↦
      (let apart = ap (λ (m : String). str_eq m other) ((eq_iff n name).0 e) ∙ h in
        rw (e, apart) refl)
  | inr e ↦ elim (Bool-cases (str_eq n other)) [
    | inl k ↦ rw (e, k) refl
    | inr k ↦ rw (e, k) (pop_group-other name other stacks h)
  ]
]

-- All keys of a group have its name, and the parameters of the first are plain.
abbrev pub IsNamed : ParamGroup → Type 0
IsNamed g =
    (params_of g.first ≡ g.name)
    × PlainParams g.first.params
    × All (λ (key : IdWithParams). params_of key ≡ g.name) g.others

named-append :
    (name : String) (keys : List IdWithParams) (key : IdWithParams)
    → All (λ (k : IdWithParams). params_of k ≡ name) keys
    → params_of key ≡ name
    → All (λ (k : IdWithParams). params_of k ≡ name) (keys ++ (key ∷ []))
named-append name [] key h e = (e, tt)
named-append name (k ∷ keys) key (h, hs) e = (h, named-append name keys key hs e)

Add-IsNamed :
    (key : IdWithParams) (groups : List ParamGroup)
    → PlainParams key.params
    → All IsNamed groups
    → All IsNamed (add_key key groups)
Add-IsNamed key [] p h = ((refl, p, tt), tt)
Add-IsNamed key (g ∷ groups) p ((f, q, os), hs) =
    elim (Bool-cases (str_eq g.name (params_of key))) [
      | inl e ↦ rw e (
        (f, q, named-append g.name g.others key os (sym ((eq_iff g.name (params_of key)).0 e))),
        hs,
      )
      | inr e ↦ rw e ((f, q, os), Add-IsNamed key groups p hs)
    ]

pub Onto-IsNamed :
    (groups : List ParamGroup) (keys : List IdWithParams)
    → All IsNamed groups
    → All (λ (key : IdWithParams). PlainParams key.params) keys
    → All IsNamed (group_onto groups keys)
Onto-IsNamed groups [] h plain = h
Onto-IsNamed groups (key ∷ keys) h (p, plain) =
    Onto-IsNamed (add_key key groups) keys (Add-IsNamed key groups p h) plain

-- The keys of a batch are grouped by their serialized parameters: the group of a name has exactly
-- the keys with that name, each as often as it stands in the batch and in the same order.
pub group_by_params-same :
    (name : String) (keys : List IdWithParams)
    → group_at name (group_by_params keys) ≡ same name keys
unfolding group_by_params
group_by_params-same name keys = group_at-onto name [] keys
