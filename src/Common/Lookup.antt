-- ===== src/Common/Lookup.antt =====
-- What a field of an object is after others are set, deleted or spread over it.
use Prim.Native.String.{String}
use mathlib.Core.Path.{◌≡◌, refl, sym, ap, ◌∙◌}
use mathlib.Core.Logic.{inl, inr}
use mathlib.Core.Bool.{Bool, true, false, ◌||◌}
use metaphysics.Common.Tests.{Bool-cases}
use metaphysics.Common.Text.{str_eq, eq_iff}
use metaphysics.Common.Json.{
  Json, undefined, Fields, empty, field, lookup, set_field, spread, omit_field,
}

-- Some field has the name.
abbrev pub has_field : String → Fields → Bool
has_field key empty = false
has_field key (field name value fields) = str_eq name key || has_field key fields

same_name : (name a b : String) → str_eq name a ≡ true → str_eq a b ≡ false → str_eq name b ≡ false
same_name name a b e f = ap (λ (s : String). str_eq s b) ((eq_iff name a).0 e) ∙ f

other_name : (name a b : String) → str_eq name a ≡ false → str_eq a b ≡ true → str_eq name b ≡ false
other_name name a b e f = ap (λ (s : String). str_eq name s) (sym ((eq_iff a b).0 f)) ∙ e

pub lookup-omit_field :
    (key : String) (fields : Fields) → lookup key (omit_field key fields) ≡ undefined
lookup-omit_field key empty = refl
lookup-omit_field key (field name value fields) =
    let rest = lookup-omit_field key fields in
    elim (Bool-cases (str_eq name key)) [ inl e ↦ rw e rest | inr e ↦ rw (e, e) rest ]

pub lookup-omit_same :
    (key name : String) (fields : Fields)
    → str_eq name key ≡ true
    → lookup key (omit_field name fields) ≡ undefined
lookup-omit_same key name fields e =
    ap (λ (n : String). lookup key (omit_field n fields)) ((eq_iff name key).0 e)
    ∙ lookup-omit_field key fields

pub lookup-omit_other :
    (key other : String) (fields : Fields)
    → str_eq other key ≡ false
    → lookup key (omit_field other fields) ≡ lookup key fields
lookup-omit_other key other empty d = refl
lookup-omit_other key other (field name value fields) d =
    let rest = lookup-omit_other key other fields d in
    elim (Bool-cases (str_eq name other)) [
      | inl e ↦ rw (e, same_name name other key e d) rest
      | inr e ↦ elim (Bool-cases (str_eq name key)) [
        | inl f ↦ rw (e, f) refl
        | inr f ↦ rw (e, f) rest
      ]
    ]

pub lookup-set_other :
    (key other : String) (value : Json) (fields : Fields)
    → str_eq other key ≡ false
    → lookup key (set_field other value fields) ≡ lookup key fields
lookup-set_other key other value empty d = rw d refl
lookup-set_other key other value (field name old fields) d =
    let rest = lookup-set_other key other value fields d in
    elim (Bool-cases (str_eq name other)) [
      | inl e ↦ rw (e, same_name name other key e d) refl
      | inr e ↦ elim (Bool-cases (str_eq name key)) [
        | inl f ↦ rw (e, f) refl
        | inr f ↦ rw (e, f) rest
      ]
    ]

pub or-false : (a b : Bool) → (a || b) ≡ false → (a ≡ false) × (b ≡ false)
or-false false b e = (refl, e)
or-false true b e = cc

pub lookup-spread :
    (key : String) (base over : Fields)
    → has_field key over ≡ false
    → lookup key (spread base over) ≡ lookup key base
lookup-spread key base empty h = refl
lookup-spread key base (field name value over) h =
    let (d, rest) = or-false (str_eq name key) (has_field key over) h in
    lookup-spread key (set_field name value base) over rest ∙ lookup-set_other key name value base d

-- Fields that are not there.
pub lookup-absent :
    (key : String) (fields : Fields) → has_field key fields ≡ false → lookup key fields ≡ undefined
lookup-absent key empty h = refl
lookup-absent key (field name value fields) h =
    let (d, rest) = or-false (str_eq name key) (has_field key fields) h in
    rw (d, lookup-absent key fields rest) refl

has_field-set_field :
    (key other : String) (value : Json) (fields : Fields)
    → str_eq other key ≡ false
    → has_field key fields ≡ false
    → has_field key (set_field other value fields) ≡ false
has_field-set_field key other value empty d h = rw d refl
has_field-set_field key other value (field name old fields) d h =
    let (e, rest) = or-false (str_eq name key) (has_field key fields) h in
    elim (Bool-cases (str_eq name other)) [
      | inl f ↦ rw (f, e, rest) refl
      | inr f ↦ rw (f, e, has_field-set_field key other value fields d rest) refl
    ]

pub has_field-spread :
    (key : String) (base over : Fields)
    → has_field key base ≡ false
    → has_field key over ≡ false
    → has_field key (spread base over) ≡ false
has_field-spread key base empty b h = b
has_field-spread key base (field name value over) b h =
    let (d, rest) = or-false (str_eq name key) (has_field key over) h in
    has_field-spread key (set_field name value base) over
      (has_field-set_field key name value base d b) rest

pub has_field-omit_field :
    (key other : String) (fields : Fields)
    → has_field key fields ≡ false
    → has_field key (omit_field other fields) ≡ false
has_field-omit_field key other empty h = refl
has_field-omit_field key other (field name value fields) h =
    let (d, rest) = or-false (str_eq name key) (has_field key fields) h in
    elim (Bool-cases (str_eq name other)) [
      | inl e ↦ rw e (has_field-omit_field key other fields rest)
      | inr e ↦ rw (e, d) (has_field-omit_field key other fields rest)
    ]

pub has_field-omit_same :
    (key other : String) (fields : Fields)
    → str_eq other key ≡ true
    → has_field key (omit_field other fields) ≡ false
has_field-omit_same key other empty e = refl
has_field-omit_same key other (field name value fields) e =
    let rest = has_field-omit_same key other fields e in
    elim (Bool-cases (str_eq name other)) [
      | inl f ↦ rw f rest
      | inr f ↦ rw (f, other_name name other key f e) rest
    ]
