-- ===== src/ContextGrids/Connections.antt =====
-- The titles, the links and the connections of the grids: the types of
-- src/schema/v2/artwork/artworkContextGrids, `formDefaultGravityArgs` of its index.ts,
-- src/schema/v2/artwork/layers.ts, and `artistArtworkArrayLength` of src/schema/v2/artist/index.ts.
-- A `Slice` is what the code passes to `connectionFromArraySlice` of the package graphql-relay; of
-- an artwork it has the id.
use metaphysics.Common.{
  ℕ, ◌-◌, String, Bool, true, false, not, Option, none, some, List, [], ◌∷◌, ◌++◌, length,
  if◌then◌else◌, str_eq, ◌<>◌, keep, find, or_text, or_else, ◌>>=◌,
}
use metaphysics.Common.Int.{ℤ, pos}
use metaphysics.Pagination.Args.{GravityArgs}
use metaphysics.ContextGrids.{
  Artist, Partner, Sale, Show, Artwork, Grid, artist_artwork_grid, related_artwork_grid,
  auction_artwork_grid, show_artwork_grid, partner_artwork_grid,
}

unfoldable pub title : Grid → Option String
title (artist_artwork_grid none) = none
title (artist_artwork_grid (some artist)) = some ("Other works by " <> artist.name)
title related_artwork_grid = some "Related works"
title (auction_artwork_grid sale) = some ("Other works from " <> sale.name)
title (show_artwork_grid show at_a_fair) = some ("Other works from " <> show.name)
title (partner_artwork_grid none) = none
title (partner_artwork_grid (some partner)) = some ("Other works from " <> partner.name)

unfoldable pub cta_title : Grid → Option String
cta_title (artist_artwork_grid none) = none
cta_title (artist_artwork_grid (some artist)) = some ("View all works by " <> artist.name)
cta_title related_artwork_grid = none
cta_title (auction_artwork_grid sale) = some "View all works from the auction"
cta_title (show_artwork_grid show at_a_fair) =
    some (if at_a_fair then "View all works from the booth" else "View all works from the show")
cta_title (partner_artwork_grid none) = none
cta_title (partner_artwork_grid (some partner)) = some ("View all works from " <> partner.name)

unfoldable pub cta_href : Grid → Option String
cta_href (artist_artwork_grid none) = none
cta_href (artist_artwork_grid (some artist)) = some ("/artist/" <> artist.id)
cta_href related_artwork_grid = none
cta_href (auction_artwork_grid sale) = some ("/auction/" <> sale.id)
cta_href (show_artwork_grid show at_a_fair) = some ("/show/" <> show.id)
cta_href (partner_artwork_grid none) = none
cta_href (partner_artwork_grid (some partner)) = some ("/" <> partner.default_profile_id)

-- The interface `GravityArgs` of the grids.
pub record GridArgs : Type 0 where
  pub exclude_ids : List String
  pub page : ℕ
  pub size : Option ℕ
  pub total_count : Bool
  pub sort : Option String
  pub for_sale : Bool
  pub published : Bool
  pub filter : List String

unfoldable pub form_default_gravity_args : {R : Type 0} → GravityArgs R → Artwork → GridArgs × ℤ
form_default_gravity_args options artwork = (
  record {
    exclude_ids = artwork.mongo_id ∷ [];
    page = options.page;
    size = options.size;
    total_count = false;
    sort = none;
    for_sale = false;
    published = false;
    filter = [];
  },
  options.offset,
)

abbrev pub artist_artwork_array_length : Artist → List String → ℕ
artist_artwork_array_length artist [] = artist.published_artworks_count
artist_artwork_array_length artist (f ∷ fs) =
    if str_eq f "for_sale"
    then artist.forsale_artworks_count
    else if str_eq f "not_for_sale"
    then artist.published_artworks_count - artist.forsale_artworks_count
    else artist.published_artworks_count

pub record Layer : Type 0 where
  pub id : String
  pub type : String

-- The layers of fairs go to the beginning.
abbrev pub artwork_layers : List Layer → List Layer
artwork_layers layers =
    keep (λ (l : Layer). str_eq l.type "fair") layers
    ++ keep (λ (l : Layer). not (str_eq l.type "fair")) layers

-- A page of artworks, with the header `x-total-count` where the code reads it.
pub record Page : Type 0 where
  pub body : List String
  pub total : Option String

pub record GridLoaders : Type 0 where
  pub artist_artworks : String → GridArgs → Option (Option (List String))
  pub sale_artworks : String → GridArgs → Option (List String)
  pub partner_artworks : String → GridArgs → Option Page
  pub partner_show_artworks : String → String → GridArgs → Option Page
  pub related_layers : String → Option (List Layer)
  pub related_layer_artworks : String → String → String → Option ℕ → Option (List String)
  pub parse_int : String → ℕ

pub record Slice : Type 0 where
  pub artworks : List String
  pub array_length : ℕ
  pub slice_start : ℤ

module _ (loaders : GridLoaders) {R : Type 0} (options : GravityArgs R) (artwork : Artwork) where
  abbrev pub paged : Page → Slice
  paged page = record {
    artworks = page.body;
    array_length = loaders.parse_int (or_else (or_text page.total (some "0")) "");
    slice_start = options.offset;
  }

  abbrev pub artist_slice : Artist → Option (Option Slice)
  artist_slice artist = do
    artworks ←
        loaders.artist_artworks artist.id (record (form_default_gravity_args options artwork).0 {
          sort = some "-merchandisability";
          filter = "for_sale" ∷ [];
        })
    some (elim artworks [
      | none ↦ none
      | some found ↦ some (record {
        artworks = found;
        array_length = artist_artwork_array_length artist ("for_sale" ∷ []);
        slice_start = options.offset;
      })
    ])

  abbrev pub sale_slice : Sale → Option Slice
  sale_slice sale = do
    artworks ← loaders.sale_artworks sale.id (form_default_gravity_args options artwork).0
    some (record {
      artworks = artworks;
      array_length = sale.eligible_sale_artworks_count;
      slice_start = options.offset;
    })

  abbrev pub partner_slice : Partner → Option Slice
  partner_slice partner = do
    page ←
        loaders.partner_artworks partner.id (record (form_default_gravity_args options artwork).0 {
          published = true;
          total_count = true;
          for_sale = true;
          sort = some "-published_at";
        })
    some (paged page)

  abbrev pub show_slice : Show → Option Slice
  show_slice show = do
    page ←
        loaders.partner_show_artworks show.partner_id show.id
          (record (form_default_gravity_args options artwork).0 { total_count = true })
    some (paged page)

  abbrev pub related_slice : Option Layer → Option (Option Slice)
  related_slice none = some none
  related_slice (some layer) = do
    artworks ← loaders.related_layer_artworks "main" layer.type artwork.id options.size
    some
        (some (record { artworks = artworks; array_length = length artworks; slice_start = pos 0 }))

  -- `artworksConnection` of a grid: none for a rejected request, `some none` for null.
  unfoldable pub artworks_connection : Grid → Option (Option Slice)
  artworks_connection (artist_artwork_grid none) = some none
  artworks_connection (artist_artwork_grid (some artist)) = artist_slice artist
  artworks_connection related_artwork_grid = do
    layers ← loaders.related_layers artwork.id
    related_slice (find (λ (l : Layer). str_eq l.id "main") (artwork_layers layers))
  artworks_connection (auction_artwork_grid sale) = do slice ← sale_slice sale; some (some slice)
  artworks_connection (show_artwork_grid show at_a_fair) = do
    slice ← show_slice show
    some (some slice)
  artworks_connection (partner_artwork_grid none) = some none
  artworks_connection (partner_artwork_grid (some partner)) = do
    slice ← partner_slice partner
    some (some slice)
