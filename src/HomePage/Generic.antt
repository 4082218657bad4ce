-- ===== src/HomePage/Generic.antt =====
-- The generic genes that are drawn, and the filter of the modules.
use mathlib.Core.List.{Perm}
use mathlib.Core.List.Perm
use metaphysics.Common.{
  ℕ, zero, suc, ◌≤◌, ◌<◌, String, Bool, true, Option, none, some, List, [], ◌∷◌, ◌≡◌, refl, ap, inl,
  inr, arith, map, keep, take, length, get_elem?, All, Bool-cases,
}
use metaphysics.Common.Kept.{keep-All}
use metaphysics.Common.Uniq.{length-take_bound}
use metaphysics.HomePage.{
  Module, generic, GenericGene, generic_genes_params, remove_at, drawn_params, up_to, has_key_of,
  filter_modules,
}

-- The element at an index, and what is left without it.
module _ {A : Type 0} where
  taken :
      (i : ℕ) (xs : List A)
      → i < length xs
      → (x : A) × (get_elem? xs i ≡ some x)
        × Perm (x ∷ remove_at i xs) xs
        × (suc (length (remove_at i xs)) ≡ length xs)
  taken i [] h = absurd (omega arith)
  taken zero (x ∷ xs) h = (x, refl, Perm.refl _, refl)
  taken (suc i) (x ∷ xs) h =
      let (y, e, p, l) = taken i xs (omega arith) in
      (y, e, Perm.trans (Perm.swap x y (remove_at i xs)) (Perm.cons x p), ap suc l)

drawn-perm :
    (draw : ℕ → ℕ → ℕ)
    → ((round count : ℕ) → 0 < count → draw round count < count)
    → (round n : ℕ) (pool : List GenericGene) → length pool ≡ n
    → Perm (drawn_params draw round n pool) (map generic pool)
unfolding drawn_params
drawn-perm draw h round zero [] e = Perm.refl _
drawn-perm draw h round zero (gene ∷ pool) e = absurd (omega arith)
drawn-perm draw h round (suc n) pool e =
    let (gene, found, p, l) =
      taken (draw round (length pool)) pool (h round (length pool) (omega arith)) in
    rw found (
      Perm.trans (Perm.cons (generic gene) (drawn-perm draw h (suc round) n _ (omega arith)))
        (Perm.map generic p))

-- Whatever is drawn, as long as each draw is below the number of genes that are left, the rails of
-- generic genes are those of all ten, each once.
pub drawn_params-perm :
    (draw : ℕ → ℕ → ℕ)
    → ((round count : ℕ) → 0 < count → draw round count < count)
    → Perm (drawn_params draw 0 10 generic_genes_params) (map generic generic_genes_params)
drawn_params-perm draw h = drawn-perm draw h 0 10 generic_genes_params refl

module _ {A : Type 0} (P : A → Type 0) where
  take-All : (n : ℕ) (xs : List A) → All P xs → All P (take n xs)
  take-All zero xs h = tt
  take-All (suc n) [] h = tt
  take-All (suc n) (x ∷ xs) (a, h) = (a, take-All n xs h)

  up_to-All : (n : Option ℕ) (xs : List A) → All P xs → All P (up_to n xs)
  up_to-All none xs h = h
  up_to-All (some n) xs h = take-All n xs h

  keep-All_kept : (p : A → Bool) (xs : List A) → All P xs → All P (keep p xs)
  keep-All_kept p [] h = tt
  keep-All_kept p (x ∷ xs) (a, h) = elim (Bool-cases (p x)) [
    | inl e ↦ rw e (a, keep-All_kept p xs h)
    | inr e ↦ rw e (keep-All_kept p xs h)
  ]

abbrev pub is_displayed : Module → Bool
is_displayed rail = rail.display

-- The modules that the filter leaves are displayed, at most as many as asked for, and, where keys are
-- to be included, only modules of these, whatever is excluded.
pub filter_modules-All :
    (draw : ℕ → ℕ → ℕ) (modules : List Module) (max_rails : ℕ) (exclude keys : List String)
    → let filtered = filter_modules draw modules (some max_rails) exclude (some keys) in
      All (λ (m : Module). is_displayed m ≡ true) filtered
      × All (λ (m : Module). has_key_of keys m ≡ true) filtered
      × (length filtered ≤ max_rails)
unfolding filter_modules
filter_modules-All draw modules max_rails exclude keys =
    let chosen = keep (has_key_of keys) modules in
    (
      take-All _ max_rails (keep is_displayed chosen) (keep-All is_displayed chosen),
      take-All _ max_rails (keep is_displayed chosen)
          (keep-All_kept _ is_displayed chosen (keep-All (has_key_of keys) modules)),
      length-take_bound max_rails (keep is_displayed chosen),
    )
