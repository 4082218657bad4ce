-- ===== src/HomePage/Followed.antt =====
-- What happens to the modules without a rail of followed genes.
use mathlib.Core.List.{append-nil}
use metaphysics.Common.{
  ℕ, suc, ◌-◌, Bool, false, Option, none, some, List, [], ◌∷◌, ◌++◌, ◌≡◌, refl, ap, ◌∙◌, map, keep,
  any, take, length, find_index, arith,
}
use metaphysics.Common.Kept.{keep-append}
use metaphysics.Common.Lookup.{or-false}
use metaphysics.HomePage.{Module, has_key}
use metaphysics.HomePage.Modules.{Gene, gene_module, with_genes, add_followed_genes}
use metaphysics.HomePage.Generic.{is_displayed}

find_index-none :
    {A : Type 0} (p : A → Bool) (xs : List A) → any p xs ≡ false → find_index p xs ≡ none
find_index-none p [] h = refl
find_index-none p (x ∷ xs) h =
    let (a, rest) = or-false (p x) (any p xs) h in rw (a, find_index-none p xs rest) refl

length-last :
    (modules : List Module) (m : Module) → length (modules ++ (m ∷ [])) ≡ suc (length modules)
length-last [] m = refl
length-last (x ∷ modules) m = ap suc (length-last modules m)

take-append : (modules rest : List Module) → take (length modules) (modules ++ rest) ≡ modules
take-append [] rest = refl
take-append (x ∷ modules) rest = ap (λ (l : List Module). x ∷ l) (take-append modules rest)

init-append :
    (modules : List Module) (m : Module)
    → take (length (modules ++ (m ∷ [])) - 1) (modules ++ (m ∷ [])) ≡ modules
init-append modules m =
    let length_left : length (modules ++ (m ∷ [])) - 1 ≡ length modules =
      omega (arith, length-last modules m) in
    rw length_left (take-append modules (m ∷ []))

undisplayed : (genes : List Gene) → keep is_displayed (map (gene_module none) genes) ≡ []
undisplayed [] = refl
undisplayed (gene ∷ genes) = undisplayed genes

-- Where no module is that of followed genes and a rail of them may be shown, the last module is lost:
-- the modules that are displayed are those of the others.
pub add_followed_genes-lost :
    (load : ℕ → Option (List Gene)) (modules : List Module) (m : Module) (n : ℕ) (genes : List Gene)
    → any (has_key "genes") (modules ++ (m ∷ [])) ≡ false
    → load (suc n) ≡ some genes
    → (left : List Module) × (add_followed_genes load (modules ++ (m ∷ [])) (some (suc n))
        ≡ some left)
      × (keep is_displayed left ≡ keep is_displayed modules)
unfolding add_followed_genes
add_followed_genes-lost load modules m n genes h e =
    let all = modules ++ (m ∷ []) in
    (
      with_genes none genes all,
      rw (add_followed_genes, find_index-none (has_key "genes") all h, e) refl,
      ap (λ (l : List Module). keep is_displayed (l ++ map (gene_module none) genes))
            (init-append modules m)
          ∙ (keep-append is_displayed modules (map (gene_module none) genes)
              ∙ (ap (λ (l : List Module). keep is_displayed modules ++ l) (undisplayed genes)
                  ∙ append-nil (keep is_displayed modules))),
    )
