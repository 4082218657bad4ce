-- ===== src/Common/Kept.antt =====
-- What a test keeps of a list, and what it leaves.
use mathlib.Core.List.{Perm, perm_middle}
use mathlib.Core.List.Perm
use mathlib.Core.Path.{◌≡◌, refl, ap}
use mathlib.Core.Logic.{inl, inr}
use mathlib.Core.Bool.{Bool, true, false, not}
use mathlib.Core.List.{List, [], ◌∷◌, ◌++◌, map}
use metaphysics.Common.Tests.{Bool-cases}
use metaphysics.Common.Lists.{keep, All}

module _ {A : Type 0} (p : A → Bool) where
  pub keep-All : (xs : List A) → All (λ (x : A). p x ≡ true) (keep p xs)
  keep-All [] = tt
  keep-All (x ∷ xs) = elim (Bool-cases (p x)) [
    | inl e ↦ rw e (e, keep-All xs)
    | inr e ↦ rw e (keep-All xs)
  ]

  pub keep-both : (xs : List A) → Perm (keep (λ (x : A). not (p x)) xs ++ keep p xs) xs
  keep-both [] = Perm.refl _
  keep-both (x ∷ xs) = elim (Bool-cases (p x)) [
    | inl e ↦ rw e (
        Perm.trans (perm_middle (keep (λ (x : A). not (p x)) xs) (keep p xs))
          (Perm.cons x (keep-both xs)))
    | inr e ↦ rw e (Perm.cons x (keep-both xs))
  ]

  pub keep-map :
      {B : Type 0} (f : B → A) (xs : List B)
      → keep p (map f xs) ≡ map f (keep (λ (x : B). p (f x)) xs)
  keep-map f [] = refl
  keep-map f (x ∷ xs) = elim (Bool-cases (p (f x))) [
    | inl e ↦ rw e (ap (λ (l : List A). f x ∷ l) (keep-map f xs))
    | inr e ↦ rw e (keep-map f xs)
  ]

module _ {A : Type 0} where
  pub divided-perm :
      (p : A → Bool) (xs : List A) → Perm (keep p xs ++ keep (λ (x : A). not (p x)) xs) xs
  divided-perm p [] = Perm.refl _
  divided-perm p (x ∷ xs) = elim (Bool-cases (p x)) [
    | inl e ↦ rw e (Perm.cons x (divided-perm p xs))
    | inr e ↦ rw e (
        Perm.trans (perm_middle (keep p xs) (keep (λ (x : A). not (p x)) xs))
          (Perm.cons x (divided-perm p xs)))
  ]

  pub keep-append : (p : A → Bool) (xs ys : List A) → keep p (xs ++ ys) ≡ keep p xs ++ keep p ys
  keep-append p [] ys = refl
  keep-append p (x ∷ xs) ys = elim (Bool-cases (p x)) [
    | inl e ↦ rw e (ap (λ (l : List A). x ∷ l) (keep-append p xs ys))
    | inr e ↦ rw e (keep-append p xs ys)
  ]

  -- Elements of which none satisfies both tests, or of which all that satisfy one satisfy the other.
  pub keep-none :
      (p q : A → Bool) (xs : List A)
      → ((x : A) → q x ≡ true → p x ≡ false)
      → keep p (keep q xs) ≡ []
  keep-none p q [] h = refl
  keep-none p q (x ∷ xs) h = elim (Bool-cases (q x)) [
    | inl e ↦ rw (e, h x e) (keep-none p q xs h)
    | inr e ↦ rw e (keep-none p q xs h)
  ]

  pub keep-same :
      (p q : A → Bool) (xs : List A)
      → ((x : A) → q x ≡ false → p x ≡ false)
      → keep p (keep q xs) ≡ keep p xs
  keep-same p q [] h = refl
  keep-same p q (x ∷ xs) h = elim (Bool-cases (q x)) [
    | inl e ↦ elim (Bool-cases (p x)) [
      | inl f ↦ rw (e, f) (ap (λ (l : List A). x ∷ l) (keep-same p q xs h))
      | inr f ↦ rw (e, f) (keep-same p q xs h)
    ]
    | inr e ↦ rw (e, h x e) (keep-same p q xs h)
  ]
