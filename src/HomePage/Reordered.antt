-- ===== src/HomePage/Reordered.antt =====
-- What the preferred order keeps of the modules.
use mathlib.Core.List.{Perm, append-nil}
use mathlib.Core.List.Perm
use mathlib.Core.Bool.{false≢true}
use metaphysics.Common.{
  String, Bool, true, false, not, Option, none, some, List, [], ◌∷◌, ◌++◌, ◌≡◌, refl, sym, ap, ◌∙◌,
  inl, inr, Bool-cases, Option-cases, keep, str_eq, eq_iff,
}
use metaphysics.Common.Kept.{divided-perm, keep-append, keep-none, keep-same}
use metaphysics.HomePage.{Module, has_key}
use metaphysics.HomePage.Modules.{reordered, reorder_modules}

reordered-perm :
    (keys : List String) (modules : List Module) → Perm (reordered keys modules) modules
unfolding reordered
reordered-perm [] modules = Perm.refl _
reordered-perm (key ∷ keys) modules =
    Perm.trans (Perm.append_left (keep (has_key key) modules) (reordered-perm keys _))
      (divided-perm (has_key key) modules)

not-false : (b : Bool) → not b ≡ true → b ≡ false
not-false true e = cc
not-false false e = refl

not-true : (b : Bool) → not b ≡ false → b ≡ true
not-true true e = refl
not-true false e = cc

other_text : (s a b : String) → str_eq s a ≡ true → str_eq a b ≡ false → str_eq s b ≡ false
other_text s a b e d = ap (λ (t : String). str_eq t b) ((eq_iff s a).0 e) ∙ d

same_key : (a b : String) (rail : Module) → str_eq a b ≡ true → has_key b rail ≡ has_key a rail
same_key a b rail e = ap (λ (s : String). has_key s rail) (sym ((eq_iff a b).0 e))

one_key :
    (a b : String) (rail : Module)
    → str_eq a b ≡ false
    → has_key a rail ≡ true
    → has_key b rail ≡ false
one_key a b rail d h = elim (Option-cases rail.key) [
  | inl k ↦ absurd (false≢true (rw k at h))
  | inr (key, k) ↦ rw k (other_text key a b (rw k at h) d)
]

keep-reordered :
    (key : String) (keys : List String) (modules : List Module)
    → keep (has_key key) (reordered keys modules) ≡ keep (has_key key) modules
unfolding reordered
keep-reordered key [] modules = refl
keep-reordered key (k ∷ keys) modules =
    let others = keep (λ (m : Module). not (has_key k m)) modules in
    keep-append (has_key key) (keep (has_key k) modules) (reordered keys others)
    ∙ elim (Bool-cases (str_eq k key)) [
      | inl e ↦
          ap (λ (l : List Module). l ++ keep (has_key key) (reordered keys others))
            (keep-same (has_key key) (has_key k) modules (λ m h. same_key k key m e ∙ h))
          ∙ (ap (λ (l : List Module). keep (has_key key) modules ++ l)
                (keep-reordered key keys others
                  ∙ keep-none (has_key key) (λ (m : Module). not (has_key k m)) modules
                      (λ m h. same_key k key m e ∙ not-false (has_key k m) h))
              ∙ append-nil (keep (has_key key) modules))
      | inr e ↦
          ap (λ (l : List Module). l ++ keep (has_key key) (reordered keys others))
            (keep-none (has_key key) (has_key k) modules (λ m h. one_key k key m e h))
          ∙ (keep-reordered key keys others
              ∙ keep-same (has_key key) (λ (m : Module). not (has_key k m)) modules
                  (λ m h. one_key k key m e (not-true (has_key k m) h)))
    ]

-- The modules are kept, each as often as it stands there, whatever the preferred order is, and those
-- of a same key stay in the order that they had.
pub reorder_modules-perm :
    (order : Option (List String)) (modules : List Module)
    → Perm (reorder_modules order modules) modules
      × ((key : String)
          → keep (has_key key) (reorder_modules order modules) ≡ keep (has_key key) modules)
unfolding reorder_modules
reorder_modules-perm none modules = (Perm.refl _, λ key. refl)
reorder_modules-perm (some keys) modules =
    (reordered-perm keys modules, λ key. keep-reordered key keys modules)
