-- ===== src/HomePage/Tests.antt =====
-- The modules of a logged-in and of a logged-out user.
use mathlib.Core.List.{Perm}
use metaphysics.Common.{
  ℕ, ◌<◌, String, true, false, Option, none, some, List, [], ◌∷◌, ◌≡◌, refl, map, keep,
}
use metaphysics.Common.Sort.{sort_by}
use metaphysics.HomePage.{
  Module, no_params, generic, followed_gene, related_artists, followed_artist, generic_genes_params,
  drawn_params, filter_modules, has_key,
}
use metaphysics.HomePage.Modules.{
  Gene, Fair, ArtistPair, Context, add_followed_genes, reorder_modules, reordered, featured_fair,
  logged_out_modules, home_page_artwork_modules, logged_in, logged_out, with_related_artists,
  with_pairs, related_artists_pairs,
}
use metaphysics.HomePage.Reordered.{reorder_modules-perm}
use metaphysics.HomePage.Generic.{drawn_params-perm, is_displayed}
use metaphysics.HomePage.Followed.{add_followed_genes-lost}

abbrev rail : String → Module
rail key = record { key = some key; display = true; params = no_params }

abbrev gene : Gene
gene = record { id = "op-art"; name = "Op Art" }

abbrev load_genes : ℕ → Option (List Gene)
load_genes size = some (gene ∷ [])

reorder_modules-perm_example :
    Perm
      (reorder_modules (some ("saved_works" ∷ [])) (rail "genes" ∷ rail "saved_works" ∷ []))
      (rail "genes" ∷ rail "saved_works" ∷ [])
    × ((key : String)
        → keep
            (has_key key)
            (reorder_modules (some ("saved_works" ∷ [])) (rail "genes" ∷ rail "saved_works" ∷ []))
          ≡ keep (has_key key) (rail "genes" ∷ rail "saved_works" ∷ []))
reorder_modules-perm_example =
    reorder_modules-perm (some ("saved_works" ∷ [])) (rail "genes" ∷ rail "saved_works" ∷ [])

saved_first :
    reorder_modules (some ("saved_works" ∷ [])) (rail "genes" ∷ rail "saved_works" ∷ [])
    ≡ rail "saved_works" ∷ rail "genes" ∷ []
unfolding reorder_modules
saved_first = refl

first_draw : (round count : ℕ) → 0 < count → 0 < count
first_draw round count h = h

drawn_params-perm_example :
    Perm
      (drawn_params (λ round count. 0) 0 10 generic_genes_params)
      (map generic generic_genes_params)
drawn_params-perm_example = drawn_params-perm (λ round count. 0) first_draw

add_followed_genes-lost_example :
    (left : List Module) × (add_followed_genes load_genes
        (rail "active_bids" ∷ rail "saved_works" ∷ [])
        (some 1)
      ≡ some left)
    × (keep is_displayed left ≡ keep is_displayed (rail "active_bids" ∷ []))
add_followed_genes-lost_example =
    add_followed_genes-lost load_genes (rail "active_bids" ∷ []) (rail "saved_works") 0 (gene ∷ [])
      refl refl

-- The genes are left alone if their module is the first one.
genes_first :
    add_followed_genes load_genes (rail "genes" ∷ rail "saved_works" ∷ []) (some 1)
    ≡ some (rail "genes" ∷ rail "saved_works" ∷ [])
unfolding add_followed_genes
genes_first = refl

genes_second :
    add_followed_genes load_genes (rail "saved_works" ∷ rail "genes" ∷ []) (some 1)
    ≡ some (
        rail "saved_works"
        ∷ record (rail "genes") { params = followed_gene "op-art" "Op Art" }
        ∷ [])
unfolding add_followed_genes
genes_second = refl

abbrev fair : String → Fair
fair size = record { id = size; banner_size = size }

unknown_size_first : featured_fair (fair "x-large" ∷ fair "huge" ∷ []) ≡ some (fair "huge")
unfolding featured_fair sort_by
unknown_size_first = refl

abbrev pair_of : String → ArtistPair
pair_of id = record { artist_id = id; sim_artist_id = "like"; forsale_artworks_count = 1 }

abbrev context : Context
context = record {
  homepage_modules =
      some (some (("related_artists", true) ∷ ("genes", true) ∷ ("active_bids", false) ∷ []));
  followed_genes = some load_genes;
  suggested_similar_artists = some (pair_of "a" ∷ pair_of "b" ∷ []);
  sales = some [];
  fairs = some (fair "small" ∷ []);
  draw = λ round count. 0;
  sample_two = λ pairs. pairs;
}

logged_in_modules :
    home_page_artwork_modules context
      (some 8)
      (some 1)
      (some ("genes" ∷ []))
      ("saved_works" ∷ [])
      none
    ≡ some (
        record (rail "genes") { params = followed_gene "op-art" "Op Art" }
        ∷ record (rail "followed_artist") { params = followed_artist "like" }
        ∷ record (rail "related_artists") { params = related_artists "like" "a" }
        ∷ [])
unfolding home_page_artwork_modules logged_in add_followed_genes filter_modules reorder_modules
    reordered with_related_artists with_pairs related_artists_pairs
logged_in_modules = refl

only_fairs :
    home_page_artwork_modules
      (record context { homepage_modules = none })
      (some 8)
      (some 1)
      none
      []
      (some ("current_fairs" ∷ "live_auctions" ∷ []))
    ≡ some (rail "current_fairs" ∷ [])
unfolding home_page_artwork_modules logged_out logged_out_modules featured_fair filter_modules
    sort_by
only_fairs = refl
