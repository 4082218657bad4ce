-- ===== src/SavedSearch/Fields.antt =====
-- How `only` and `except` choose fields, and the group of the two sizes.
use mathlib.Core.List.{Perm, perm_middle}
use mathlib.Core.List.Perm
use metaphysics.Common.{
  String, Bool, true, not, some, List, [], ◌∷◌, ◌++◌, ◌≡◌, refl, includes, keep, Bool-cases, inl,
  inr, non_empty,
}
use metaphysics.SavedSearch.{
  Criteria, SearchCriteriaLabel, done, failed, Loaders, Texts, only_and_except,
  search_criteria_fields, search_criteria_labels_to_return, get_preferred_metric, label,
}
use metaphysics.SavedSearch.Facets.{get_custom_size_labels, custom_size_label, extract_size_label}
use metaphysics.SavedSearch.Labels.{resolve_search_criteria_labels}

keep-perm : (p : String → Bool) (xs : List String) → Perm (keep p xs ++ keep (λ x. not (p x)) xs) xs
keep-perm p [] = Perm.refl []
keep-perm p (x ∷ xs) = elim (Bool-cases (p x)) [
  | inl e ↦ rw e (Perm.cons x (keep-perm p xs))
  | inr e ↦ rw e (
      Perm.trans (perm_middle (keep p xs) (keep (λ y. not (p y)) xs))
        (Perm.cons x (keep-perm p xs)))
]

-- The same list of fields, given as `only` or as `except`, divides all fields: each is chosen by
-- exactly one of the two. Given as both at once it is refused.
pub only-except_divide :
    (f : String) (fs : List String)
    → (chosen : List String) × (rest : List String) × (search_criteria_labels_to_return (f ∷ fs) []
        ≡ done chosen)
      × (search_criteria_labels_to_return [] (f ∷ fs) ≡ done rest)
      × Perm (chosen ++ rest) search_criteria_fields
      × (search_criteria_labels_to_return (f ∷ fs) (f ∷ fs) ≡ failed only_and_except)
unfolding search_criteria_labels_to_return
only-except_divide f fs = (
  keep (includes (f ∷ fs)) search_criteria_fields,
  keep (λ x. not (includes (f ∷ fs) x)) search_criteria_fields,
  refl,
  refl,
  keep-perm (includes (f ∷ fs)) search_criteria_fields,
  refl,
)

-- Where only the height is asked for, both sizes are returned: if the width is given and not
-- empty, its label comes first, although its field is not among `only`.
pub only_height-width :
    (texts : Texts) (loaders : Loaders) (c : Criteria) (metric w : String)
    → get_preferred_metric loaders.me_loader ≡ done metric
    → c.width ≡ some w
    → non_empty w ≡ true
    → (rest : List SearchCriteriaLabel) × (resolve_search_criteria_labels texts loaders c
          ("height" ∷ [])
          []
        ≡ done (label "Size" (some (extract_size_label texts "w" w metric)) w "width" ∷ rest))
unfolding resolve_search_criteria_labels search_criteria_labels_to_return get_custom_size_labels
only_height-width texts loaders c metric w h k e =
    (custom_size_label texts metric "h" "height" c.height ++ [], rw (h, k, e) refl)
