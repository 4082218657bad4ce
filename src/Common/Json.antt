-- ===== src/Common/Json.antt =====
-- Values of JSON, or undefined, with natural numbers, and what the language does with objects: their
-- fields in order, each name once.
use Prim.Native.Nat.{ℕ, zero, suc}
use Prim.Native.String.{String}
use mathlib.Core.Bool.{Bool, true, false}
use metaphysics.Common.Tests.{if◌then◌else◌}
use metaphysics.Common.Text.{str_eq, non_empty}

mutual
  pub data Json : Type 0 where
    undefined null : Json
    bool : Bool → Json
    number : ℕ → Json
    text : String → Json
    array : Items → Json
    object : Fields → Json

  pub data Items : Type 0 where
    nil : Items
    cons : Json → Items → Items

  pub data Fields : Type 0 where
    empty : Fields
    field : String → Json → Fields → Fields

abbrev pub truthy : Json → Bool
truthy undefined = false
truthy null = false
truthy (bool b) = b
truthy (number zero) = false
truthy (number (suc n)) = true
truthy (text s) = non_empty s
truthy (array items) = true
truthy (object fields) = true

-- `a || b`
abbrev pub either : Json → Json → Json
either a b = if truthy a then a else b

abbrev pub lookup : String → Fields → Json
lookup key empty = undefined
lookup key (field name value fields) = if str_eq name key then value else lookup key fields

-- A property of a value that is not null or undefined.
abbrev pub property : String → Json → Json
property key (object fields) = lookup key fields
property key value = undefined

abbrev pub set_field : String → Json → Fields → Fields
set_field key value empty = field key value empty
set_field key value (field name other fields) =
    let rest = set_field key value fields in
    if str_eq name key then field name value fields else field name other rest

-- `{...base, ...over}`
abbrev pub spread : Fields → Fields → Fields
spread base empty = base
spread base (field name value over) = spread (set_field name value base) over

abbrev pub omit_field : String → Fields → Fields
omit_field key empty = empty
omit_field key (field name value fields) =
    let rest = omit_field key fields in if str_eq name key then rest else field name value rest

abbrev pub is_array : Json → Bool
is_array (array items) = true
is_array value = false
