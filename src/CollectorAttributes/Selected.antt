-- ===== src/CollectorAttributes/Selected.antt =====
-- Which attributes of a collector are selected.
use metaphysics.Common.{
  ◌-◌, ◌≤◌, Bool, List, [], ◌∷◌, ◌++◌, length, take, keep, ◌≡◌, refl, ap, ◌∙◌, Bool-cases, inl, inr,
}
use metaphysics.Common.Uniq.{length-take_bound}
use metaphysics.CollectorAttributes.{
  Attribute, RawAttributes, SimilarGalleriesData, user_activity_attributes, remaining_categories,
  user_activity_result, select_collector_attributes,
}

abbrev pub has_value : Attribute → Bool
has_value a = a.value

first_activity :
    (attributes : List Attribute)
    → user_activity_result attributes ≡ take 1 (keep has_value attributes)
first_activity [] = refl
first_activity (a ∷ attributes) = elim (Bool-cases a.value) [
  | inl e ↦ rw e refl
  | inr e ↦ rw e (first_activity attributes)
]

take-after_first :
    (xs ys : List Attribute)
    → take 1 xs ++ take (5 - length (take 1 xs)) ys ≡ take 5 (take 1 xs ++ ys)
take-after_first [] ys = refl
take-after_first (x ∷ xs) ys = refl

first_five :
    (raw : RawAttributes) (similar : SimilarGalleriesData)
    → select_collector_attributes raw similar
      ≡ take 5 (
          take 1 (keep has_value (user_activity_attributes raw))
          ++ keep has_value (remaining_categories raw similar))
unfolding select_collector_attributes
first_five raw similar =
    let others = keep has_value (remaining_categories raw similar) in
    ap (λ (l : List Attribute). l ++ take (5 - length l) others)
      (first_activity (user_activity_attributes raw))
    ∙ take-after_first (keep has_value (user_activity_attributes raw)) others

-- The selected attributes are the first five, at most, of the true ones, where of the user's
-- activity only the first true one counts, which goes before the other categories.
pub select_collector_attributes-first_five :
    (raw : RawAttributes) (similar : SimilarGalleriesData)
    → (select_collector_attributes raw similar
        ≡ take 5 (
            take 1 (keep has_value (user_activity_attributes raw))
            ++ keep has_value (remaining_categories raw similar)))
      × (length (select_collector_attributes raw similar) ≤ 5)
select_collector_attributes-first_five raw similar =
    let e = first_five raw similar in (e, rw e (length-take_bound 5 _))
