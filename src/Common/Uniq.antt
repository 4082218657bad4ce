-- ===== src/Common/Uniq.antt =====
-- What `uniqBy` keeps.
use mathlib.Core.Bool.{false≢true}
use metaphysics.Common.{
  All, ℕ, zero, suc, ◌≤◌, ◌<◌, String, true, false, ◌||◌, List, [], ◌∷◌, map, eq_iff, includes,
  Distinct, uniq_by, take, length, ◌≡◌, refl, ap, arith, Bool-cases, inl, inr,
}

module _ {A : Type 0} (key : A → String) where
  abbrev pub keys_by : List A → List String
  keys_by xs = map key xs

  uniq_by-unseen :
      (seen : List String) (xs : List A) (k : String)
      → includes seen k ≡ true
      → includes (keys_by (uniq_by key seen xs)) k ≡ false
  uniq_by-unseen seen [] k h = refl
  uniq_by-unseen seen (x ∷ xs) k h = elim (Bool-cases (includes seen (key x))) [
    | inl e ↦ rw e (uniq_by-unseen seen xs k h)
    | inr e ↦ rw e (ground (arith, eq_iff (key x) k, uniq_by-unseen (key x ∷ seen) xs k))
  ]

  pub uniq_by-Distinct :
      (seen : List String) (xs : List A) → Distinct (keys_by (uniq_by key seen xs))
  uniq_by-Distinct seen [] = tt
  uniq_by-Distinct seen (x ∷ xs) = elim (Bool-cases (includes seen (key x))) [
    | inl e ↦ rw e (uniq_by-Distinct seen xs)
    | inr e ↦ rw e (
      uniq_by-unseen (key x ∷ seen) xs (key x) (ground (arith, eq_iff (key x) (key x))),
      uniq_by-Distinct (key x ∷ seen) xs,
    )
  ]

  pub uniq_by-All :
      (P : A → Type 0) (seen : List String) (xs : List A) → All P xs → All P (uniq_by key seen xs)
  uniq_by-All P seen [] h = tt
  uniq_by-All P seen (x ∷ xs) (h, hs) = elim (Bool-cases (includes seen (key x))) [
    | inl e ↦ rw e (uniq_by-All P seen xs hs)
    | inr e ↦ rw e (h, uniq_by-All P (key x ∷ seen) xs hs)
  ]

  -- Every key is kept, or was seen before.
  pub uniq_by-keys :
      (seen : List String) (xs : List A) (k : String)
      → includes (keys_by xs) k ≡ true
      → includes seen k || includes (keys_by (uniq_by key seen xs)) k ≡ true
  uniq_by-keys seen [] k h = absurd (false≢true h)
  uniq_by-keys seen (x ∷ xs) k h = elim (Bool-cases (includes seen (key x))) [
    | inl e ↦ rw e (ground (arith, uniq_by-keys seen xs k, eq_iff (key x) k))
    | inr e ↦ rw e (ground (arith, uniq_by-keys (key x ∷ seen) xs k, eq_iff (key x) k))
  ]

  take-unlisted :
      (n : ℕ) (xs : List A) (k : String)
      → includes (keys_by xs) k ≡ false
      → includes (keys_by (take n xs)) k ≡ false
  take-unlisted zero xs k h = refl
  take-unlisted (suc n) [] k h = refl
  take-unlisted (suc n) (x ∷ xs) k h = ground (arith, take-unlisted n xs k)

  pub take-Distinct : (n : ℕ) (xs : List A) → Distinct (keys_by xs) → Distinct (keys_by (take n xs))
  take-Distinct zero xs h = tt
  take-Distinct (suc n) [] h = tt
  take-Distinct (suc n) (x ∷ xs) (a, h) = (take-unlisted n xs (key x) a, take-Distinct n xs h)

pub length-take_bound : {A : Type 0} (n : ℕ) (xs : List A) → length (take n xs) ≤ n
length-take_bound zero xs = omega arith
length-take_bound (suc n) [] = omega arith
length-take_bound (suc n) (x ∷ xs) = let bound = length-take_bound n xs in omega arith

pub take_short : {A : Type 0} (n : ℕ) (xs : List A) → length (take n xs) < n → take n xs ≡ xs
take_short zero xs h = absurd (omega arith)
take_short (suc n) [] h = refl
take_short (suc n) (x ∷ xs) h = ap (λ (l : List _). x ∷ l) (take_short n xs (omega arith))
