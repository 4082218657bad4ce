-- ===== src/ApiLoader/Stamped.antt =====
-- What the stamp of the cache changes in data: `_set` of src/lib/cache.ts.
use mathlib.Core.Option
use metaphysics.Common.{
  ℕ, String, Bool, true, false, not, ◌&&◌, Option, none, some, if◌then◌else◌, ◌>>=◌, str_eq, ◌≡◌,
  refl, inl, inr, Bool-cases,
}
use metaphysics.Common.Json.{
  Json, undefined, null, bool, number, text, array, object, Items, nil, cons, Fields, lookup,
  set_field, truthy,
}
use metaphysics.Common.Lookup.{lookup-set_other}
use metaphysics.ApiLoader.{stamp_datum, stamp_items, stamp}

-- Data that differ at most in the field `cached`: of an object, or of the objects in a list.
abbrev pub SameFields : Fields → Fields → Type 0
SameFields fields others =
    (name : String) → str_eq "cached" name ≡ false → lookup name others ≡ lookup name fields

abbrev pub SameDatum : Json → Json → Type 0
SameDatum (object fields) (object others) = SameFields fields others
SameDatum (object fields) other = ⊥
SameDatum datum other = datum ≡ other

abbrev pub SameItems : Items → Items → Type 0
SameItems nil nil = Unit {0}
SameItems (cons datum items) (cons other others) = SameDatum datum other × SameItems items others
SameItems _ _ = ⊥

abbrev pub SameData : Json → Json → Type 0
SameData (array items) (array others) = SameItems items others
SameData (array items) other = ⊥
SameData datum other = SameDatum datum other

-- An object, or a list of objects, lists and values that are not truthy.
abbrev pub is_stampable : Json → Bool
is_stampable (object fields) = true
is_stampable (array items) = true
is_stampable datum = not (truthy datum)

abbrev pub are_stampable : Items → Bool
are_stampable nil = true
are_stampable (cons datum items) = is_stampable datum && are_stampable items

abbrev pub can_stamp : Json → Bool
can_stamp (object fields) = true
can_stamp (array items) = are_stampable items
can_stamp datum = false

-- What the stamping of a value comes to.
abbrev pub Stamped : {A : Type 0} → (A → A → Type 0) → Bool → A → Option A → Type 0
Stamped Same can v none = can ≡ false
Stamped Same can v (some w) = (can ≡ true) × Same v w

set_cached-SameFields :
    (timestamp : ℕ) (fields : Fields)
    → SameFields fields (set_field "cached" (number timestamp) fields)
set_cached-SameFields timestamp fields name d =
    lookup-set_other name "cached" (number timestamp) fields d

falsy_datum :
    (datum : Json)
    → SameDatum datum datum
    → Stamped SameDatum (not (truthy datum)) datum (if truthy datum then none else some datum)
falsy_datum datum h = elim (Bool-cases (truthy datum)) [
  | inl e ↦ rw e refl
  | inr e ↦ rw e (refl, h)
]

stamp_datum-Stamped :
    (timestamp : ℕ) (datum : Json)
    → Stamped SameDatum (is_stampable datum) datum (stamp_datum timestamp datum)
stamp_datum-Stamped timestamp (object fields) = (refl, set_cached-SameFields timestamp fields)
stamp_datum-Stamped timestamp (array items) = (refl, refl)
stamp_datum-Stamped timestamp undefined = (refl, refl)
stamp_datum-Stamped timestamp null = (refl, refl)
stamp_datum-Stamped timestamp (bool b) = falsy_datum (bool b) refl
stamp_datum-Stamped timestamp (number n) = falsy_datum (number n) refl
stamp_datum-Stamped timestamp (text s) = falsy_datum (text s) refl

stamp_items-Stamped :
    (timestamp : ℕ) (items : Items)
    → Stamped SameItems (are_stampable items) items (stamp_items timestamp items)
stamp_items-Stamped timestamp nil = (refl, tt)
stamp_items-Stamped timestamp (cons datum items) =
    both (stamp_datum timestamp datum) (stamp_items timestamp items)
      (stamp_datum-Stamped timestamp datum) (stamp_items-Stamped timestamp items)
  where
    both :
        (first : Option Json) (rest : Option Items)
        → Stamped SameDatum (is_stampable datum) datum first
        → Stamped SameItems (are_stampable items) items rest
        → Stamped SameItems
            (is_stampable datum && are_stampable items)
            (cons datum items)
            (first >>= λ w. rest >>= λ ws. some (cons w ws))
    both none rest h k = rw h refl
    both (some w) none (c, h) k = rw (c, k) refl
    both (some w) (some ws) (c, h) (d, k) = (rw (c, d) refl, (h, k))

pub stamp-Stamped :
    (timestamp : ℕ) (content : Json)
    → Stamped SameData (can_stamp content) content (stamp timestamp content)
unfolding stamp
stamp-Stamped timestamp (object fields) = (refl, set_cached-SameFields timestamp fields)
stamp-Stamped timestamp (array items) =
    of_items (stamp_items timestamp items) (stamp_items-Stamped timestamp items)
  where
    of_items :
        (o : Option Items)
        → Stamped SameItems (are_stampable items) items o
        → Stamped SameData (are_stampable items) (array items) (Option.map array o)
    of_items none h = h
    of_items (some w) h = h
stamp-Stamped timestamp undefined = refl
stamp-Stamped timestamp null = refl
stamp-Stamped timestamp (bool b) = refl
stamp-Stamped timestamp (number n) = refl
stamp-Stamped timestamp (text s) = refl
