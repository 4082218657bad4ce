-- ===== src/FieldSelection/Tests.antt =====
-- Queries with a field below a connection.
use metaphysics.Common.{true, false, some, [], ◌∷◌, ◌≡◌, ◌↔◌, refl, split}
use metaphysics.FieldSelection.{
  Fields, tree, no_selection, field, no_type, of_type, recursively_find_field, is_field_requested,
  variable, boolean, Directive, is_skipped,
}
use metaphysics.FieldSelection.Requested.{Requested, is_field_requested_iff}

-- `edges { node { id isPurchased } }`
abbrev fields : Fields
fields =
    field
      (tree "edges" (
        of_type
          (field
            (tree "node" (
              of_type (field (tree "id" no_type) (field (tree "isPurchased" no_type) no_selection))
                no_type))
            no_selection)
          no_type))
      no_selection

is_requested : is_field_requested "edges.node.isPurchased" (some fields) ≡ true
unfolding is_field_requested recursively_find_field split
is_requested = refl

is_not_requested : is_field_requested "edges.cursor" (some fields) ≡ false
unfolding is_field_requested recursively_find_field split
is_not_requested = refl

is_field_requested_iff_example :
    (is_field_requested "edges.node.isPurchased" (some fields) ≡ true)
    ↔ Requested (split b'.' "edges.node.isPurchased") fields
is_field_requested_iff_example =
    is_field_requested_iff "edges.node.isPurchased" fields
      (refl, ((refl, ((refl, tt, (refl, tt, tt)), tt), tt), tt), tt)

-- `a: sale { id } b: sale { name }`: only the first of the two is looked into.
aliased_missed :
    is_field_requested "sale.name" (
      some (
        field (tree "sale" (of_type (field (tree "id" no_type) no_selection) no_type)) (
          field
            (tree "sale" (of_type (field (tree "name" no_type) no_selection) no_type))
            no_selection)))
    ≡ false
unfolding is_field_requested recursively_find_field split
aliased_missed = refl

abbrev skip : Directive
skip = record { name = "skip"; arguments = ("if", variable "withoutSale") ∷ [] }

abbrev include : Directive
include = record { name = "include"; arguments = ("if", boolean true) ∷ [] }

skipped_by_variable : is_skipped (λ name. true) (skip ∷ include ∷ []) ≡ true
unfolding is_skipped
skipped_by_variable = refl
