-- ===== src/HomePage/Modules.antt =====
-- The followed genes, the order of the modules, the related artists and the resolver.
use metaphysics.Common.{
  ℕ, zero, suc, ◌-◌, String, Bool, true, false, not, ◌&&◌, Option, none, some, List, [], ◌∷◌, ◌++◌,
  map, str_eq, includes, keep, find_index, take, drop, length, get_elem?, or_else, ltb, ◌>>=◌,
}
use mathlib.Core.Option
use metaphysics.Common.Sort.{sort_by}
use metaphysics.HomePage.{
  Module, Params, no_params, followed_gene, followed_artist, related_artists, has_key, remove_at,
  filter_modules,
}

pub record Gene : Type 0 where
  pub id : String
  pub name : String

-- A suggestion: an artist, and the followed one that it is like.
pub record ArtistPair : Type 0 where
  pub artist_id : String
  pub sim_artist_id : String
  pub forsale_artworks_count : ℕ

pub record Fair : Type 0 where
  pub id : String
  pub banner_size : String

-- The loaders, and what is drawn. The loaders of the first two fields are there for a logged-in user.
pub record Context : Type 0 where
  pub homepage_modules : Option (Option (List (String × Bool)))
  pub followed_genes : Option (ℕ → Option (List Gene))
  pub suggested_similar_artists : Option (List ArtistPair)
  pub sales : Option (List String)
  pub fairs : Option (List Fair)
  pub draw : ℕ → ℕ → ℕ
  pub sample_two : List ArtistPair → List ArtistPair

-- `{ ...blueprint, params }`
abbrev pub gene_module : Option Module → Gene → Module
gene_module none gene = record {
  key = none;
  display = false;
  params = followed_gene gene.id gene.name;
}
gene_module (some blueprint) gene = record blueprint { params = followed_gene gene.id gene.name }

-- The index of the genes as the code tests and uses it: 0 is falsy, and -1, `none`, is truthy and
-- stands for the last module.
abbrev pub with_genes : Option ℕ → List Gene → List Module → List Module
with_genes none genes modules = take (length modules - 1) modules ++ map (gene_module none) genes
with_genes (some i) genes modules =
    take i modules ++ (map (gene_module (get_elem? modules i)) genes ++ drop (suc i) modules)

unfoldable pub add_followed_genes :
    (ℕ → Option (List Gene)) → List Module → Option ℕ → Option (List Module)
add_followed_genes load modules none = some modules
add_followed_genes load modules (some zero) = some modules
add_followed_genes load modules (some (suc n)) = elim (find_index (has_key "genes") modules) [
  | some zero ↦ some modules
  | some (suc i) ↦
      Option.map (λ (genes : List Gene). with_genes (some (suc i)) genes modules) (load (suc n))
  | none ↦ Option.map (λ (genes : List Gene). with_genes none genes modules) (load (suc n))
]

-- The loop over the preferred keys.
unfoldable pub reordered : List String → List Module → List Module
reordered [] unordered = unordered
reordered (key ∷ keys) unordered =
    keep (has_key key) unordered
    ++ reordered keys (keep (λ (m : Module). not (has_key key m)) unordered)

unfoldable pub reorder_modules : Option (List String) → List Module → List Module
unfolding reordered
reorder_modules none modules = modules
reorder_modules (some preferred_order) modules = reordered preferred_order modules

abbrev pub set_params : ℕ → Params → List Module → List Module
set_params i given [] = []
set_params zero given (m ∷ modules) = record m { params = given } ∷ modules
set_params (suc i) given (m ∷ modules) = m ∷ set_params i given modules

-- What the pairs make of the modules, of which the one at the index is that of related artists.
unfoldable pub with_pairs : ℕ → List ArtistPair → List Module → List Module
with_pairs i [] modules = remove_at i modules
with_pairs i (p ∷ []) modules = set_params i (related_artists p.sim_artist_id p.artist_id) modules
with_pairs i (p ∷ q ∷ pairs) modules =
    let followed : Module = record {
      key = some "followed_artist";
      display = true;
      params = followed_artist q.sim_artist_id;
    } in
    set_params (suc i) (related_artists p.sim_artist_id p.artist_id)
      (take i modules ++ (followed ∷ drop i modules))

unfoldable pub related_artists_pairs : Context → Option (List ArtistPair)
related_artists_pairs context =
    Option.map
      (λ (pairs : List ArtistPair).
        context.sample_two (keep (λ (p : ArtistPair). ltb 0 p.forsale_artworks_count) pairs))
      context.suggested_similar_artists

unfoldable pub with_related_artists : Context → List Module → Option (List Module)
unfolding with_pairs related_artists_pairs
with_related_artists context modules = elim (find_index (has_key "related_artists") modules) [
  | none ↦ some modules
  | some i ↦
      Option.map (λ (pairs : List ArtistPair). with_pairs i pairs modules)
        (related_artists_pairs context)
]

-- The keys of the response that are displayed or not.
abbrev pub modules_to_display :
    List String → Option (List String) → List (String × Bool) → List Module
modules_to_display exclude include response =
    map
      (λ (entry : String × Bool). record {
        key = some entry.0;
        display = entry.1;
        params = no_params;
      })
      (keep
        (λ (entry : String × Bool).
          not (includes exclude entry.0) && includes (or_else include (entry.0 ∷ [])) entry.0)
        response)

-- A size that is not listed has the index -1, and goes first.
abbrev pub banner_rank : Fair → Option ℕ
banner_rank fair =
    let sizes = "x-large" ∷ "large" ∷ "medium" ∷ "small" ∷ "x-small" ∷ [] in
    some (elim (find_index (λ (size : String). str_eq size fair.banner_size) sizes) [
      | none ↦ 0
      | some i ↦ suc i
    ])

abbrev pub first {ℓ} : {A : Type ℓ} → List A → Option A
first [] = none
first (x ∷ xs) = some x

unfoldable pub featured_fair : List Fair → Option Fair
featured_fair fairs = first (sort_by banner_rank fairs)

abbrev pub is_there {ℓ} : {A : Type ℓ} → Option A → Bool
is_there none = false
is_there (some a) = true

unfoldable pub logged_out_modules : Option String → Option Fair → List Module
logged_out_modules auction fair =
    record { key = some "popular_artists"; display = true; params = no_params }
    ∷ record { key = some "current_fairs"; display = is_there fair; params = no_params }
    ∷ record { key = some "live_auctions"; display = is_there auction; params = no_params }
    ∷ []

module _ (context : Context) (max_rails max_followed_gene_rails : Option ℕ)
    (order : Option (List String)) (exclude : List String) (include : Option (List String)) where
  unfoldable pub logged_in :
      Option (List (String × Bool)) → (ℕ → Option (List Gene)) → Option (List Module)
  unfolding add_followed_genes reorder_modules with_related_artists filter_modules
  logged_in response load_genes = do
    found ← response
    modules ←
        add_followed_genes load_genes (modules_to_display exclude include found)
          max_followed_gene_rails
    with_related_artists context
        (reorder_modules order (filter_modules context.draw modules max_rails exclude include))

  unfoldable pub logged_out : Option (List Module)
  unfolding logged_out_modules featured_fair filter_modules
  logged_out = do
    sales ← context.sales
    fairs ← context.fairs
    some (
        filter_modules context.draw (logged_out_modules (first sales) (featured_fair fairs))
          max_rails exclude include)

  -- `resolve` of `HomePageArtworkModules`
  unfoldable pub home_page_artwork_modules : Option (List Module)
  unfolding logged_in logged_out
  home_page_artwork_modules = elim context.homepage_modules [
    | none ↦ logged_out
    | some response ↦ elim context.followed_genes [
      | none ↦ logged_out
      | some load_genes ↦ logged_in response load_genes
    ]
  ]
