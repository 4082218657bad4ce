-- ===== src/SavedSearch/Counted.antt =====
-- Lists of labels of a bounded length, and how many labels are of a field.
use metaphysics.Common.{
  ℕ, suc, ◌+◌, ◌≤◌, String, Bool, false, str_eq, eq_iff, All, ◌∙◌, List, [], ◌∷◌, ◌++◌, map, ◌≡◌,
  refl, ap, inl, inr, arith, length, keep, Bool-cases,
}
use metaphysics.Common.Kept.{keep-append}
use metaphysics.SavedSearch.{SearchCriteriaLabel, Outcome, done, failed, and_then, all_labels}

-- At most so many labels, if there is no failure.
abbrev pub AtMost : ℕ → Outcome (List SearchCriteriaLabel) → Type 0
AtMost n (done labels) = length labels ≤ n
AtMost n (failed e) = Unit

pub length-append : {A : Type 0} (xs ys : List A) → length (xs ++ ys) ≡ length xs + length ys
length-append [] ys = omega arith
length-append (x ∷ xs) ys = let rest = length-append xs ys in omega arith

pub length-map : {A B : Type 0} (f : A → B) (xs : List A) → length (map f xs) ≡ length xs
length-map f [] = refl
length-map f (x ∷ xs) = ap suc (length-map f xs)

pub length-keep : {A : Type 0} (p : A → Bool) (xs : List A) → length (keep p xs) ≤ length xs
length-keep p [] = omega arith
length-keep p (x ∷ xs) =
    let rest = length-keep p xs in
    elim (Bool-cases (p x)) [ inl e ↦ rw e (omega arith) | inr e ↦ rw e (omega arith) ]

pub AtMost-and_then :
    {A : Type 0} (n : ℕ) (o : Outcome A) (f : A → Outcome (List SearchCriteriaLabel))
    → ((a : A) → AtMost n (f a))
    → AtMost n (and_then o f)
AtMost-and_then n (done a) f h = h a
AtMost-and_then n (failed e) f h = tt

pub AtMost-bind :
    (m n : ℕ) (o : Outcome (List SearchCriteriaLabel))
    (f : List SearchCriteriaLabel → Outcome (List SearchCriteriaLabel))
    → AtMost m o
    → ((labels : List SearchCriteriaLabel) → length labels ≤ m → AtMost n (f labels))
    → AtMost n (and_then o f)
AtMost-bind m n (done labels) f b h = h labels b
AtMost-bind m n (failed e) f b h = tt

pub AtMost-raise :
    (m n : ℕ) (o : Outcome (List SearchCriteriaLabel)) → m ≤ n → AtMost m o → AtMost n o
AtMost-raise m n (done labels) h b = omega arith
AtMost-raise m n (failed e) h b = tt

pub all_labels-AtMost :
    (make : String → Outcome SearchCriteriaLabel) (values : List String)
    → AtMost (length values) (all_labels make values)
all_labels-AtMost make [] = omega arith
all_labels-AtMost make (value ∷ values) = AtMost-and_then _ (make value) _ (λ l.
    AtMost-bind (length values) _ (all_labels make values) _ (all_labels-AtMost make values)
      (λ labels b. omega arith))

-- What holds of a result, if there is no failure.
abbrev pub Holds : {A : Type 0} → (A → Type 0) → Outcome A → Type 0
Holds P (done a) = P a
Holds P (failed e) = Unit {0}

pub Holds-bind :
    {A B : Type 0} (P : A → Type 0) (Q : B → Type 0) (o : Outcome A) (f : A → Outcome B)
    → Holds P o
    → ((a : A) → P a → Holds Q (f a))
    → Holds Q (and_then o f)
Holds-bind P Q (done a) f h k = k a h
Holds-bind P Q (failed e) f h k = tt

pub Holds-any : {A : Type 0} (o : Outcome A) → Holds (λ (a : A). Unit {0}) o
Holds-any (done a) = tt
Holds-any (failed e) = tt

pub Holds-both :
    (n : ℕ) (Q : List SearchCriteriaLabel → Type 0) (o : Outcome (List SearchCriteriaLabel))
    → AtMost n o
    → Holds Q o
    → Holds (λ (ls : List SearchCriteriaLabel). (length ls ≤ n) × Q ls) o
Holds-both n Q (done ls) h k = (h, k)
Holds-both n Q (failed e) h k = tt

abbrev pub HasField : String → List SearchCriteriaLabel → Type 0
HasField field labels = All (λ (l : SearchCriteriaLabel). l.field ≡ field) labels

-- How many labels are of a field.
abbrev pub of_field : String → List SearchCriteriaLabel → ℕ
of_field field labels = length (keep (λ (l : SearchCriteriaLabel). str_eq l.field field) labels)

pub of_field-parts :
    (field : String) (xs ys zs : List SearchCriteriaLabel)
    → of_field field (xs ++ (ys ++ zs)) ≡ of_field field xs + of_field field ys + of_field field zs
of_field-parts field xs ys zs =
    let is_of = λ (l : SearchCriteriaLabel). str_eq l.field field in
    let outer = ap length (keep-append is_of xs (ys ++ zs)) in
    let inner = ap length (keep-append is_of ys zs) in
    let first = length-append (keep is_of xs) (keep is_of (ys ++ zs)) in
    let second = length-append (keep is_of ys) (keep is_of zs) in omega arith

pub of_field-all :
    (field : String) (labels : List SearchCriteriaLabel)
    → HasField field labels
    → of_field field labels ≡ length labels
of_field-all field [] h = refl
of_field-all field (l ∷ labels) (h, hs) =
    rw ((eq_iff l.field field).1 h) (ap suc (of_field-all field labels hs))

pub of_field-other :
    (own field : String) (labels : List SearchCriteriaLabel)
    → str_eq own field ≡ false
    → HasField own labels
    → of_field field labels ≡ 0
of_field-other own field [] d h = refl
of_field-other own field (l ∷ labels) d (h, hs) =
    rw (ap (λ (t : String). str_eq t field) h ∙ d) (of_field-other own field labels d hs)

pub keep-HasField :
    (field : String) (p : SearchCriteriaLabel → Bool) (labels : List SearchCriteriaLabel)
    → HasField field labels
    → HasField field (keep p labels)
keep-HasField field p [] h = tt
keep-HasField field p (l ∷ labels) (h, hs) = elim (Bool-cases (p l)) [
  | inl e ↦ rw e (h, keep-HasField field p labels hs)
  | inr e ↦ rw e (keep-HasField field p labels hs)
]

pub all_labels-HasField :
    (field : String) (make : String → Outcome SearchCriteriaLabel) (values : List String)
    → ((value : String) → Holds (λ (l : SearchCriteriaLabel). l.field ≡ field) (make value))
    → Holds (HasField field) (all_labels make values)
all_labels-HasField field make [] h = tt
all_labels-HasField field make (value ∷ values) h =
    Holds-bind (λ (l : SearchCriteriaLabel). l.field ≡ field) (HasField field) (make value) _
      (h value)
      (λ l own.
        Holds-bind (HasField field) (HasField field) (all_labels make values) _
          (all_labels-HasField field make values h) (λ ls own_all. (own, own_all)))
