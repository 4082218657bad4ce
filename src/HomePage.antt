-- ===== src/HomePage.antt =====
-- The artwork modules of the home page: home_page_artwork_modules.ts, fetch.ts, add_generic_genes.ts
-- and logged_out_modules.ts in src/schema/v2/home. A loader that rejects answers `none`; a limit of
-- rails that is negative is `none`. Math.random and lodash's `sampleSize` are parameters.
pub mod Modules
pub mod Reordered
pub mod Generic
pub mod Followed
mod Tests
use metaphysics.Common.{
  ℕ, zero, suc, ◌+◌, ◌-◌, String, Bool, true, false, not, ◌&&◌, Option, none, some, List, [], ◌∷◌,
  ◌++◌, map, if◌then◌else◌, str_eq, includes, keep, find_index, take, drop, length, get_elem?,
  or_else, ltb, ◌>>=◌,
}
use mathlib.Core.Option
use metaphysics.Common.Sort.{sort_by}

-- The parameters of a rail of a generic gene.
pub record GenericGene : Type 0 where
  pub id : String
  pub gene_id : String
  pub title : String
  pub medium : Option String
  pub price_range : Option String

pub data Params : Type 0 where
  no_params : Params
  followed_gene : (id name : String) → Params
  generic : GenericGene → Params
  followed_artist : String → Params
  related_artists : (followed_artist_id related_artist_id : String) → Params

-- A key that is undefined is `none`, a `display` that is undefined is false.
pub record Module : Type 0 where
  pub key : Option String
  pub display : Bool
  pub params : Params

abbrev pub generic_gene : String → String → String → Option String → Option String → GenericGene
generic_gene id gene_id title medium price_range = record {
  id = id;
  gene_id = gene_id;
  title = title;
  medium = medium;
  price_range = price_range;
}

abbrev pub generic_genes_params : List GenericGene
generic_genes_params =
    generic_gene "geometric" "geometric" "Geometric" none none
    ∷ generic_gene "landscape" "landscape" "Landscape" none none
    ∷ generic_gene "emerging-art-painting" "emerging-art" "Emerging Painting" (some "painting")
        (some "50-10000")
    ∷ generic_gene "emerging-art-photography" "emerging-art" "Emerging Photography"
        (some "photography") (some "50-10000")
    ∷ generic_gene "graffiti-slash-street-art" "graffiti-slash-street-art" "Street Art" none
        (some "50-5000")
    ∷ generic_gene "contemporary-pop" "contemporary-pop" "Pop Prints & Multiples" (some "prints")
        (some "50-5000")
    ∷ generic_gene "black-and-white" "black-and-white" "Black & White Photography"
        (some "photography") (some "50-10000")
    ∷ generic_gene "abstract-art" "abstract-art" "Abstract Painting" (some "painting")
        (some "50-10000")
    ∷ generic_gene "figurative-painting" "figurative-painting" "Figurative Painting"
        (some "painting") (some "50-10000")
    ∷ generic_gene "collage" "collage" "Collage / Works on Paper" (some "work-on-paper")
        (some "50-5000")
    ∷ []

abbrev pub remove_at {ℓ} : {A : Type ℓ} → ℕ → List A → List A
remove_at i xs = take i xs ++ drop (suc i) xs

abbrev pub generic_params : Option GenericGene → Params
generic_params none = no_params
generic_params (some gene) = generic gene

-- The rounds of `times`: the index that a round draws is below the length it is given.
unfoldable pub drawn_params : (ℕ → ℕ → ℕ) → ℕ → ℕ → List GenericGene → List Params
drawn_params draw round zero pool = []
drawn_params draw round (suc n) pool =
    let i = draw round (length pool) in
    generic_params (get_elem? pool i) ∷ drawn_params draw (suc round) n (remove_at i pool)

unfoldable pub add_generic_genes : (ℕ → ℕ → ℕ) → List Module → List Module
unfolding drawn_params
add_generic_genes draw modules =
    modules
    ++ map
        (λ (params : Params). record { key = some "generic_gene"; display = true; params = params })
        (drawn_params draw 0 10 generic_genes_params)

abbrev pub has_key : String → Module → Bool
has_key key rail = elim rail.key [ none ↦ false | some k ↦ str_eq k key ]

abbrev pub has_key_of : List String → Module → Bool
has_key_of keys rail = elim rail.key [ none ↦ false | some k ↦ includes keys k ]

abbrev pub up_to {ℓ} : {A : Type ℓ} → Option ℕ → List A → List A
up_to none xs = xs
up_to (some n) xs = take n xs

-- Which modules are chosen: an `include` goes before an `exclude`.
abbrev pub chosen_modules :
    (ℕ → ℕ → ℕ) → List Module → List String → Option (List String) → List Module
chosen_modules draw modules exclude (some keys) = keep (has_key_of keys) modules
chosen_modules draw modules [] none = add_generic_genes draw modules
chosen_modules draw modules (key ∷ keys) none =
    keep (λ (m : Module). not (has_key_of (key ∷ keys) m)) modules

unfoldable pub filter_modules :
    (ℕ → ℕ → ℕ) → List Module → Option ℕ → List String → Option (List String) → List Module
filter_modules draw modules max_rails exclude include =
    up_to max_rails (keep (λ (m : Module). m.display) (chosen_modules draw modules exclude include))
