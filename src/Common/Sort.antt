-- ===== src/Common/Sort.antt =====
-- lodash's `sortBy` with an optional number for a rank: stable, and what has no rank is last.
use mathlib.Core.List.{Perm}
use mathlib.Core.List.Perm
use metaphysics.Common.{
  ℕ, Bool, true, false, Option, none, some, List, [], ◌∷◌, map, if◌then◌else◌, ltb, keep, All, ◌≡◌,
  refl, ap, arith, Bool-cases, inl, inr,
}

abbrev pub is_after : Option ℕ → Option ℕ → Bool
is_after none none = false
is_after none (some n) = true
is_after (some m) none = false
is_after (some m) (some n) = ltb n m

is_after_asym : (a b : Option ℕ) → is_after a b ≡ true → is_after b a ≡ false
is_after_asym none none h = refl
is_after_asym none (some n) h = refl
is_after_asym (some m) none h = cc
is_after_asym (some m) (some n) h = ground arith

not_after : (a b c : Option ℕ) → is_after a b ≡ false → is_after b c ≡ false → is_after a c ≡ false
not_after none none none h k = refl
not_after none none (some n) h k = ground arith
not_after none (some m) c h k = ground arith
not_after (some l) b none h k = refl
not_after (some l) none (some n) h k = ground arith
not_after (some l) (some m) (some n) h k = ground arith

module _ {ℓ} {A : Type ℓ} (rank : A → Option ℕ) where
  abbrev pub insert_by : A → List A → List A
  insert_by x [] = x ∷ []
  insert_by x (y ∷ ys) =
      let rest = insert_by x ys in if is_after (rank x) (rank y) then y ∷ rest else x ∷ y ∷ ys

  unfoldable pub sort_by : List A → List A
  sort_by [] = []
  sort_by (x ∷ xs) = insert_by x (sort_by xs)

  -- Nothing of the list stands before `x`.
  abbrev NoneBefore : A → List A → Type 0
  NoneBefore x ys = All (λ (y : A). is_after (rank x) (rank y) ≡ false) ys

  abbrev Sorted : List A → Type 0
  Sorted [] = Unit
  Sorted (x ∷ xs) = NoneBefore x xs × Sorted xs

  NoneBefore-below :
      (x y : A) (zs : List A)
      → is_after (rank x) (rank y) ≡ false
      → NoneBefore y zs
      → NoneBefore x zs
  NoneBefore-below x y [] h k = tt
  NoneBefore-below x y (z ∷ zs) h (a, k) =
      (not_after (rank x) (rank y) (rank z) h a, NoneBefore-below x y zs h k)

  NoneBefore-insert :
      (z x : A) (ys : List A)
      → is_after (rank z) (rank x) ≡ false
      → NoneBefore z ys
      → NoneBefore z (insert_by x ys)
  NoneBefore-insert z x [] h k = (h, tt)
  NoneBefore-insert z x (y ∷ ys) h (a, k) = elim (Bool-cases (is_after (rank x) (rank y))) [
    | inl e ↦ rw e (a, (NoneBefore-insert z x ys h k))
    | inr e ↦ rw e (h, (a, k))
  ]

  insert-Sorted : (x : A) (ys : List A) → Sorted ys → Sorted (insert_by x ys)
  insert-Sorted x [] h = (tt, tt)
  insert-Sorted x (y ∷ ys) (a, h) = elim (Bool-cases (is_after (rank x) (rank y))) [
    | inl e ↦
        rw e (NoneBefore-insert y x ys (is_after_asym (rank x) (rank y) e) a, insert-Sorted x ys h)
    | inr e ↦ rw e ((e, NoneBefore-below x y ys e a), (a, h))
  ]

  sort_by-Sorted : (xs : List A) → Sorted (sort_by xs)
  unfolding sort_by
  sort_by-Sorted [] = tt
  sort_by-Sorted (x ∷ xs) = insert-Sorted x (sort_by xs) (sort_by-Sorted xs)

  insert_first : (x : A) (ys : List A) → NoneBefore x ys → insert_by x ys ≡ x ∷ ys
  insert_first x [] h = refl
  insert_first x (y ∷ ys) (a, h) = rw a refl

  NoneBefore-keep :
      (p : A → Bool) (x : A) (ys : List A) → NoneBefore x ys → NoneBefore x (keep p ys)
  NoneBefore-keep p x [] h = tt
  NoneBefore-keep p x (y ∷ ys) (a, h) = elim (Bool-cases (p y)) [
    | inl e ↦ rw e (a, NoneBefore-keep p x ys h)
    | inr e ↦ rw e (NoneBefore-keep p x ys h)
  ]

  keep-insert :
      (p : A → Bool) (x : A) (ys : List A)
      → Sorted ys
      → keep p (insert_by x ys) ≡ (if p x then insert_by x (keep p ys) else keep p ys)
  keep-insert p x [] h = refl
  keep-insert p x (y ∷ ys) (a, h) = elim (Bool-cases (is_after (rank x) (rank y))) [
    | inl e ↦ ground (arith, e, keep-insert p x ys h)
    | inr e ↦ ground (
      arith,
      e,
      insert_first x (keep p ys) (NoneBefore-keep p x ys (NoneBefore-below x y ys e a)),
    )
  ]

  -- To drop elements and then sort is to sort and then drop them.
  pub keep-sort_by : (p : A → Bool) (xs : List A) → keep p (sort_by xs) ≡ sort_by (keep p xs)
  unfolding sort_by
  keep-sort_by p [] = refl
  keep-sort_by p (x ∷ xs) = elim (Bool-cases (p x)) [
    | inl e ↦ rw (keep-insert p x (sort_by xs) (sort_by-Sorted xs), e, keep-sort_by p xs)
    | inr e ↦ rw (keep-insert p x (sort_by xs) (sort_by-Sorted xs), e, keep-sort_by p xs)
  ]

  insert_by-perm : (x : A) (ys : List A) → Perm (insert_by x ys) (x ∷ ys)
  insert_by-perm x [] = Perm.refl _
  insert_by-perm x (y ∷ ys) = elim (Bool-cases (is_after (rank x) (rank y))) [
    | inl e ↦ rw e (Perm.trans (Perm.cons y (insert_by-perm x ys)) (Perm.swap x y ys))
    | inr e ↦ rw e (Perm.refl _)
  ]

  pub sort_by-perm : (xs : List A) → Perm (sort_by xs) xs
  unfolding sort_by
  sort_by-perm [] = Perm.refl _
  sort_by-perm (x ∷ xs) = Perm.trans (insert_by-perm x (sort_by xs)) (Perm.cons x (sort_by-perm xs))

module _ {ℓ κ} {A : Type ℓ} {B : Type κ} (rank : B → Option ℕ) (f : A → B) where
  insert_by-map :
      (x : A) (ys : List A)
      → insert_by rank (f x) (map f ys) ≡ map f (insert_by (λ (a : A). rank (f a)) x ys)
  insert_by-map x [] = refl
  insert_by-map x (y ∷ ys) = elim (Bool-cases (is_after (rank (f x)) (rank (f y)))) [
    | inl e ↦ rw e (ap (λ (l : List B). f y ∷ l) (insert_by-map x ys))
    | inr e ↦ rw e refl
  ]

  pub sort_by-map :
      (xs : List A) → sort_by rank (map f xs) ≡ map f (sort_by (λ (a : A). rank (f a)) xs)
  unfolding sort_by
  sort_by-map [] = refl
  sort_by-map (x ∷ xs) = rw (sort_by-map xs) (insert_by-map x (sort_by (λ (a : A). rank (f a)) xs))
