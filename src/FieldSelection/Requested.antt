-- ===== src/FieldSelection/Requested.antt =====
-- A field is found exactly if it is requested.
use mathlib.Core.Path.{subst}
use mathlib.Core.Option.{some-injective}
use mathlib.Core.Bool.{false≢true}
use metaphysics.Common.{
  String, Bool, true, none, some, List, [], ◌∷◌, split, ◌≡◌, ◌↔◌, ◌⊎◌, inl, inr, refl, sym, ap, ◌∙◌,
  arith, str_eq, eq_iff, Bool-cases, Option-cases,
}
use metaphysics.FieldSelection.{
  ResolveTree, tree, Fields, no_selection, field, FieldsByTypeName, no_type, of_type, name_of,
  types_of, found_field, any_type, below_found, recursively_find_field, is_field_requested,
}

-- A field of a selection, and the fields of one of the types below it.
abbrev HasField : Fields → ResolveTree → Type 0
HasField no_selection t = ⊥
HasField (field u fields) t = (u ≡ t) ⊎ HasField fields t

abbrev HasType : FieldsByTypeName → Fields → Type 0
HasType no_type fields = ⊥
HasType (of_type f types) fields = (f ≡ fields) ⊎ HasType types fields

-- A path of names leads through the tree.
abbrev pub Requested : List String → Fields → Type 0
Requested [] fields = ⊥
Requested (name ∷ []) fields = (t : ResolveTree) × HasField fields t × (name_of t ≡ name)
Requested (name ∷ next ∷ rest) fields =
    (t : ResolveTree) × HasField fields t
    × (name_of t ≡ name)
    × (below : Fields) × HasType (types_of t) below
    × Requested (next ∷ rest) below

-- No two fields of one selection have the same name, as two with different aliases may have.
abbrev mutual
  pub IsUnaliased : Fields → Type 0
  IsUnaliased no_selection = Unit {0}
  IsUnaliased (field (tree name types) fields) =
      (found_field name fields ≡ none) × UnaliasedTypes types × IsUnaliased fields

  pub UnaliasedTypes : FieldsByTypeName → Type 0
  UnaliasedTypes no_type = Unit {0}
  UnaliasedTypes (of_type fields types) = IsUnaliased fields × UnaliasedTypes types

found_field-HasField :
    (name : String) (fields : Fields) (t : ResolveTree)
    → found_field name fields ≡ some t
    → HasField fields t × (name_of t ≡ name)
found_field-HasField name no_selection t h = cc
found_field-HasField name (field u fields) t h = elim (Bool-cases (str_eq (name_of u) name)) [
  | inl e ↦
      let same : u ≡ t = some-injective u t (rw e at h) in
      (inl same, ap name_of (sym same) ∙ (eq_iff (name_of u) name).0 e)
  | inr e ↦ let (has, named) = found_field-HasField name fields t (rw e at h) in (inr has, named)
]

any_type-HasType :
    (p : Fields → Bool) (types : FieldsByTypeName)
    → any_type p types ≡ true
    → (below : Fields) × HasType types below × (p below ≡ true)
any_type-HasType p no_type h = cc
any_type-HasType p (of_type fields types) h = elim (Bool-cases (p fields)) [
  | inl e ↦ (fields, inl refl, e)
  | inr e ↦
      let (below, has, holds) = any_type-HasType p types (rw e at h) in (below, inr has, holds)
]

HasType-any_type :
    (p : Fields → Bool) (types : FieldsByTypeName) (below : Fields)
    → HasType types below
    → p below ≡ true
    → any_type p types ≡ true
HasType-any_type p no_type below h e = absurd h
HasType-any_type p (of_type fields types) below (inl same) e = rw (ap p same ∙ e) refl
HasType-any_type p (of_type fields types) below (inr has) e =
    ground (arith, HasType-any_type p types below has e)

-- A field that is found is requested, whatever aliases there are.
find-Requested :
    (path : List String) (fields : Fields)
    → recursively_find_field path fields ≡ true
    → Requested path fields
unfolding recursively_find_field
find-Requested [] fields h = cc
find-Requested (name ∷ []) fields h = elim (Option-cases (found_field name fields)) [
  | inl e ↦ absurd (false≢true (sym (ap (below_found (λ types. true)) e) ∙ h))
  | inr (t, e) ↦ let (has, named) = found_field-HasField name fields t e in (t, has, named)
]
find-Requested (name ∷ next ∷ rest) fields h = elim (Option-cases (found_field name fields)) [
  | inl e ↦
      absurd (
        false≢true (sym (ap (below_found (any_type (recursively_find_field (next ∷ rest)))) e) ∙ h))
  | inr (t, e) ↦
      let (has, named) = found_field-HasField name fields t e in
      let (below, typed, holds) =
        any_type-HasType (recursively_find_field (next ∷ rest)) (types_of t)
          (sym (ap (below_found (any_type (recursively_find_field (next ∷ rest)))) e) ∙ h) in
      (t, has, named, below, typed, find-Requested (next ∷ rest) below holds)
]

found-first :
    (u : ResolveTree) (fields : Fields) (t : ResolveTree)
    → str_eq (name_of u) (name_of t) ≡ true
    → found_field (name_of t) (field u fields) ≡ some u
found-first u fields t e = rw e refl

none-HasField :
    (fields : Fields) (t : ResolveTree)
    → found_field (name_of t) fields ≡ none
    → ¬ HasField fields t
none-HasField (field u fields) t h = λ has. elim (Bool-cases (str_eq (name_of u) (name_of t))) [
  | inl e ↦ cc (sym h ∙ found-first u fields t e)
  | inr e ↦ elim has [
    | inl same ↦ false≢true (sym e ∙ (eq_iff (name_of u) (name_of t)).1 (ap name_of same))
    | inr later ↦ none-HasField fields t (rw e at h) later
  ]
]
none-HasField no_selection t h = λ has. has

HasField-found :
    (fields : Fields) (t : ResolveTree)
    → IsUnaliased fields
    → HasField fields t
    → (found_field (name_of t) fields ≡ some t) × UnaliasedTypes (types_of t)
HasField-found no_selection t unaliased has = absurd has
HasField-found (field (tree name types) fields) t (alone, below, rest) (inl same) =
    subst
      (λ (u : ResolveTree).
        (found_field (name_of u) (field (tree name types) fields) ≡ some u)
        × UnaliasedTypes (types_of u))
      same ((rw ((eq_iff name name).1 refl) refl), below)
HasField-found (field (tree name types) fields) t (alone, below, rest) (inr has) =
    elim (Bool-cases (str_eq name (name_of t))) [
      | inl e ↦ absurd (
          none-HasField fields t
            (subst (λ (n : String). found_field n fields ≡ none) ((eq_iff name (name_of t)).0 e)
              alone)
            has)
      | inr e ↦ rw e (HasField-found fields t rest has)
    ]

HasType-IsUnaliased :
    (types : FieldsByTypeName) (below : Fields)
    → UnaliasedTypes types
    → HasType types below
    → IsUnaliased below
HasType-IsUnaliased no_type below unaliased has = absurd has
HasType-IsUnaliased (of_type fields types) below (here, rest) (inl same) =
    subst IsUnaliased same here
HasType-IsUnaliased (of_type fields types) below (here, rest) (inr has) =
    HasType-IsUnaliased types below rest has

Requested-find :
    (path : List String) (fields : Fields)
    → IsUnaliased fields
    → Requested path fields
    → recursively_find_field path fields ≡ true
unfolding recursively_find_field
Requested-find [] fields unaliased r = absurd r
Requested-find (name ∷ []) fields unaliased (t, has, named) =
    ap (λ (n : String). below_found (λ types. true) (found_field n fields)) (sym named)
    ∙ ap (below_found (λ types. true)) (HasField-found fields t unaliased has).0
Requested-find (name ∷ next ∷ rest) fields unaliased (t, has, named, below, typed, r) =
    let (found, types) = HasField-found fields t unaliased has in
    let p = any_type (recursively_find_field (next ∷ rest)) in
    ap (λ (n : String). below_found p (found_field n fields)) (sym named)
    ∙ (ap (below_found p) found
        ∙ HasType-any_type (recursively_find_field (next ∷ rest)) (types_of t) below typed (
            Requested-find (next ∷ rest) below (HasType-IsUnaliased (types_of t) below types typed)
              r))

-- Where no two fields of one selection have the same name, a field is requested exactly if the names
-- of its path lead through the tree of the query.
pub is_field_requested_iff :
    (path : String) (fields : Fields)
    → IsUnaliased fields
    → (is_field_requested path (some fields) ≡ true) ↔ Requested (split b'.' path) fields
unfolding is_field_requested
is_field_requested_iff path fields unaliased =
    (find-Requested (split b'.' path) fields, Requested-find (split b'.' path) fields unaliased)
