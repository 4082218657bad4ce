-- ===== src/HomeView/Mixing.antt =====
-- What mixing keeps: no section is lost or repeated, and where the auction lots are moved to.
use mathlib.Core.List.{Perm, perm_middle}
use mathlib.Core.List.Perm
use metaphysics.Common.{
  ℕ, zero, suc, String, ◌≡◌, inl, inr, Bool, true, false, ◌||◌, some, List, [], ◌∷◌, ◌++◌, arith,
  if◌then◌else◌, Bool-cases, Option-cases, eq_iff, keep, any, find_index, take, drop, get_elem?,
}
use metaphysics.HomeView.{
  Context, HomeViewSection, get_user_auction_segmentation, is_segment, has_id, auction_lots_for_you,
  new_works_for_you, take_out, insert_after, auction_engagement_rule, is_section_displayable,
  displayable_rule, get_sections,
}

take_out-perm :
    (id : String) (xs : List HomeViewSection) → Perm ((take_out id xs).0 ++ (take_out id xs).1) xs
unfolding take_out
take_out-perm id [] = Perm.refl []
take_out-perm id (x ∷ xs) = elim (Bool-cases (has_id id x)) [
  | inl e ↦ rw e (Perm.refl (x ∷ xs))
  | inr e ↦ rw e (
      Perm.trans (perm_middle (take_out id xs).0 (take_out id xs).1)
        (Perm.cons x (take_out-perm id xs)))
]

split_middle :
    (n : ℕ) (moved xs : List HomeViewSection)
    → Perm (take n xs ++ (moved ++ drop n xs)) (moved ++ xs)
split_middle zero moved xs = Perm.refl (moved ++ xs)
split_middle (suc n) moved [] = Perm.refl (moved ++ [])
split_middle (suc n) moved (x ∷ xs) =
    Perm.trans (Perm.cons x (split_middle n moved xs)) (Perm.symm (perm_middle moved xs))

insert_after-perm :
    (id : String) (moved xs : List HomeViewSection) → Perm (insert_after id moved xs) (moved ++ xs)
unfolding insert_after
insert_after-perm id moved xs = elim (Option-cases (find_index (has_id id) xs)) [
  | inl e ↦ rw (e, insert_after) (Perm.refl (moved ++ xs))
  | inr (i, e) ↦ rw (e, insert_after) (split_middle (suc i) moved xs)
]

engage-perm :
    (b : Bool) (xs : List HomeViewSection)
    → Perm
        (if b
          then insert_after new_works_for_you
              (take_out auction_lots_for_you xs).0
              (take_out auction_lots_for_you xs).1
          else xs)
        xs
engage-perm true xs =
    Perm.trans (insert_after-perm new_works_for_you _ _) (take_out-perm auction_lots_for_you xs)
engage-perm false xs = Perm.refl xs

auction_engagement_rule-perm :
    (xs : List HomeViewSection) (c : Context) → Perm (auction_engagement_rule xs c) xs
unfolding auction_engagement_rule
auction_engagement_rule-perm xs c = engage-perm _ xs

-- The home view shows exactly the displayable sections, each as often as it is listed: the rules
-- reorder them, and lose or repeat none.
pub get_sections-perm :
    (xs : List HomeViewSection) (c : Context)
    → Perm (get_sections xs c) (keep (λ s. is_section_displayable s c) xs)
unfolding get_sections displayable_rule
get_sections-perm xs c = auction_engagement_rule-perm _ c

-- A user whose auction segment the rule is for.
abbrev pub is_eligible : Context → Bool
is_eligible c =
    is_segment (get_user_auction_segmentation c.segmentation) "adjacent"
    || is_segment (get_user_auction_segmentation c.segmentation) "engaged"

ids_differ :
    (s : HomeViewSection)
    → has_id auction_lots_for_you s ≡ true
    → has_id new_works_for_you s ≡ false
ids_differ s h = ground (
  arith,
  eq_iff s.id auction_lots_for_you,
  eq_iff s.id new_works_for_you,
  eq_iff auction_lots_for_you new_works_for_you,
)

take_out_found :
    (id : String) (xs : List HomeViewSection)
    → any (has_id id) xs ≡ true
    → (s : HomeViewSection) × ((take_out id xs).0 ≡ s ∷ []) × (has_id id s ≡ true)
unfolding take_out
take_out_found id [] h = cc
take_out_found id (x ∷ xs) h = elim (Bool-cases (has_id id x)) [
  | inl e ↦ (x, ground arith, e)
  | inr e ↦ let (s, f, g) = take_out_found id xs (ground arith) in (s, ground arith, g)
]

take_out_keeps :
    (xs : List HomeViewSection)
    → any (has_id new_works_for_you) xs ≡ true
    → any (has_id new_works_for_you) (take_out auction_lots_for_you xs).1 ≡ true
unfolding take_out
take_out_keeps [] h = h
take_out_keeps (x ∷ xs) h = ground (arith, ids_differ x, take_out_keeps xs)

find_any {ℓ} :
    {A : Type ℓ} (p : A → Bool) (xs : List A)
    → any p xs ≡ true
    → (i : ℕ) × (find_index p xs ≡ some i)
find_any p [] h = cc
find_any p (x ∷ xs) h = elim (Bool-cases (p x)) [
  | inl e ↦ (0, ground arith)
  | inr e ↦ let (i, f) = find_any p xs (ground arith) in (suc i, ground arith)
]

place {ℓ} :
    {A : Type ℓ} (p : A → Bool) (m xs : List A) (i : ℕ)
    → find_index p xs ≡ some i
    → (find_index p (take (suc i) xs ++ (m ++ drop (suc i) xs)) ≡ some i)
      × (get_elem? (take (suc i) xs ++ (m ++ drop (suc i) xs)) (suc i)
          ≡ get_elem? (m ++ drop (suc i) xs) 0)
place p m [] i h = cc
place p m (x ∷ xs) zero h = ground arith
place p m (x ∷ xs) (suc i) h = ground (arith, place p m xs i)

-- For an eligible user whose sections have new works and auction lots, the section that follows
-- the new works is the auction lots.
pub auction_lots_follow :
    (xs : List HomeViewSection) (c : Context)
    → is_eligible c ≡ true
    → any (has_id new_works_for_you) xs ≡ true
    → any (has_id auction_lots_for_you) xs ≡ true
    → (i : ℕ) × (s : HomeViewSection) × (find_index
          (has_id new_works_for_you)
          (auction_engagement_rule xs c)
        ≡ some i)
      × (get_elem? (auction_engagement_rule xs c) (suc i) ≡ some s)
      × (has_id auction_lots_for_you s ≡ true)
unfolding auction_engagement_rule insert_after
auction_lots_follow xs c eligible works lots =
    let (s, taken, found) = take_out_found auction_lots_for_you xs lots in
    let (i, at) =
      find_any (has_id new_works_for_you) (take_out auction_lots_for_you xs).1
        (take_out_keeps xs works) in
    let (here, next) =
      place (has_id new_works_for_you) (take_out auction_lots_for_you xs).0
        (take_out auction_lots_for_you xs).1 i at in
    (i, s, ground arith, ground arith, found)
