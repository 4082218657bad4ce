-- ===== src/SavedSearch/Grouped.antt =====
-- The groups of labels in the name of a saved search.
use mathlib.Core.List.{Perm, perm_middle}
use mathlib.Core.List.Perm
use mathlib.Core.Path.{subst}
use metaphysics.Common.{
  ℕ, zero, suc, ◌+◌, ◌-◌, ◌≤◌, String, Bool, true, false, ◌||◌, List, [], ◌∷◌, ◌++◌, map, str_eq,
  eq_iff, includes, keep, take, length, All, ◌≡◌, refl, sym, ap, arith, Bool-cases, inl, inr,
}
use metaphysics.SavedSearch.{SearchCriteriaLabel}
use metaphysics.SavedSearch.DisplayName.{
  artist_name, prioritized_names, other_names, labels_named, is_filled, grouped_labels,
  useable_labels, remaining_count,
}

abbrev pub all_of_groups : List (List SearchCriteriaLabel) → List SearchCriteriaLabel
all_of_groups [] = []
all_of_groups (g ∷ groups) = g ++ all_of_groups groups

all_of_groups-filled :
    (groups : List (List SearchCriteriaLabel))
    → all_of_groups (keep is_filled groups) ≡ all_of_groups groups
all_of_groups-filled [] = refl
all_of_groups-filled ([] ∷ groups) = all_of_groups-filled groups
all_of_groups-filled ((l ∷ g) ∷ groups) =
    ap (λ (ls : List SearchCriteriaLabel). l ∷ (g ++ ls)) (all_of_groups-filled groups)

-- What satisfies one of two tests that exclude each other.
keep-either :
    (p q : SearchCriteriaLabel → Bool) (ls : List SearchCriteriaLabel)
    → ((l : SearchCriteriaLabel) → p l ≡ true → q l ≡ false)
    → Perm (keep p ls ++ keep q ls) (keep (λ (l : SearchCriteriaLabel). p l || q l) ls)
keep-either p q [] h = Perm.refl _
keep-either p q (l ∷ ls) h = elim (Bool-cases (p l)) [
  | inl e ↦ rw (e, h l e) (Perm.cons l (keep-either p q ls h))
  | inr e ↦ elim (Bool-cases (q l)) [
    | inl k ↦
        rw (e, k)
          (Perm.trans (perm_middle (keep p ls) (keep q ls)) (Perm.cons l (keep-either p q ls h)))
    | inr k ↦ rw (e, k) (keep-either p q ls h)
  ]
]

abbrev AllDiffer : List String → Type 0
AllDiffer [] = Unit
AllDiffer (n ∷ names) = (includes names n ≡ false) × AllDiffer names

other_name :
    (n : String) (names : List String) (l : SearchCriteriaLabel)
    → includes names n ≡ false
    → str_eq n l.name ≡ true
    → includes names l.name ≡ false
other_name n names l h e =
    subst (λ (m : String). includes names m ≡ false) ((eq_iff n l.name).0 e) h

keep_none :
    (labels : List SearchCriteriaLabel) → keep (λ (l : SearchCriteriaLabel). false) labels ≡ []
keep_none [] = refl
keep_none (l ∷ labels) = keep_none labels

groups-perm :
    (names : List String) (labels : List SearchCriteriaLabel)
    → AllDiffer names
    → Perm
        (all_of_groups (map (labels_named labels) names))
        (keep (λ (l : SearchCriteriaLabel). includes names l.name) labels)
groups-perm [] labels h =
    subst (λ (ls : List SearchCriteriaLabel). Perm [] ls) (sym (keep_none labels)) (Perm.refl _)
groups-perm (n ∷ names) labels (a, h) =
    Perm.trans (Perm.append_left (labels_named labels n) (groups-perm names labels h)) (
      keep-either (λ (l : SearchCriteriaLabel). str_eq n l.name)
        (λ (l : SearchCriteriaLabel). includes names l.name) labels (λ l. other_name n names l a))

keep_known :
    (names : List String) (labels : List SearchCriteriaLabel)
    → All (λ (l : SearchCriteriaLabel). includes names l.name ≡ true) labels
    → keep (λ (l : SearchCriteriaLabel). includes names l.name) labels ≡ labels
keep_known names [] h = refl
keep_known names (l ∷ labels) (a, h) =
    rw a (ap (λ (ls : List SearchCriteriaLabel). l ∷ ls) (keep_known names labels h))

take_counted :
    (n : ℕ) (gs : List (List SearchCriteriaLabel))
    → (length (take n gs) ≤ n) × (length (take n gs) + (length gs - length (take n gs)) ≡ length gs)
take_counted zero gs = (omega arith, omega arith)
take_counted (suc n) [] = (omega arith, refl)
take_counted (suc n) (g ∷ gs) = let (a, b) = take_counted n gs in (omega arith, omega arith)

abbrev pub group_names : List String
group_names = artist_name ∷ (prioritized_names ++ other_names)

-- Where each label has one of the names that the code knows, the groups have each label once. At
-- most four groups are shown, and the number of "more" counts the others.
pub grouped_labels_complete :
    (labels : List SearchCriteriaLabel)
    → All (λ (l : SearchCriteriaLabel). includes group_names l.name ≡ true) labels
    → Perm (all_of_groups (grouped_labels labels)) labels
      × (length (useable_labels labels) ≤ 4)
      × (length (useable_labels labels) + remaining_count labels ≡ length (grouped_labels labels))
unfolding grouped_labels useable_labels remaining_count
grouped_labels_complete labels h =
    let (few, counted) = take_counted 4 (grouped_labels labels) in
    let differ : AllDiffer group_names = (
      refl,
      (refl, (refl, (refl, (refl, (refl, (refl, (refl, (refl, (refl, (refl, (refl, tt))))))))))),
    ) in
    (
      subst (λ (ls : List SearchCriteriaLabel). Perm ls labels)
          (sym (all_of_groups-filled (map (labels_named labels) group_names)))
          (subst
            (λ (ls : List SearchCriteriaLabel).
              Perm (all_of_groups (map (labels_named labels) group_names)) ls)
            (keep_known group_names labels h) (groups-perm group_names labels differ)),
      few,
      counted,
    )
