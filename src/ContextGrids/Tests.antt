-- ===== src/ContextGrids/Tests.antt =====
-- Works in an auction, in the booth of a fair and in a show.
use metaphysics.Common.{
  String, true, false, Option, none, some, [], ◌∷◌, ◌≡◌, refl, str_eq, if◌then◌else◌,
}
use metaphysics.Common.Int.{pos}
use metaphysics.Pagination.Args.{GravityArgs}
use metaphysics.ContextGrids.{
  Artist, Sale, Show, Artwork, Loaders, artist_artwork_grid, related_artwork_grid,
  show_artwork_grid, artwork_context_grids, context, show_context, auction_grids, fair_show_grids,
}
use metaphysics.ContextGrids.Connections.{
  GridLoaders, artworks_connection, title, form_default_gravity_args,
}

abbrev artist : Artist
artist = record {
  id = "banksy";
  name = "Banksy";
  forsale_artworks_count = 7;
  published_artworks_count = 9;
}

abbrev work : Artwork
work = record {
  mongo_id = "5f0";
  id = "rage";
  artist = some artist;
  partner = none;
  sale_ids = none;
  show_ids = some ("spring" ∷ []);
}

abbrev lot : Artwork
lot = record work { sale_ids = some ("evening" ∷ []) }

abbrev show_at : String → Show
show_at id = record { id = id; name = "Show"; partner_id = "p" }

abbrev sale : Option String → Sale
sale state = record {
  id = "evening";
  name = "Evening";
  is_auction = true;
  auction_state = state;
  eligible_sale_artworks_count = 3;
}

-- The fair has its full feature for one artwork only.
abbrev loaders : Loaders
loaders = record {
  sale = λ id. some (some (sale (some "closed")));
  sales = λ ids. some (sale (some "closed") ∷ []);
  related_fairs =
      λ id. some (record { id = "fair"; has_full_feature = str_eq id "booth_work" } ∷ []);
  shows = λ at_a_fair ids. some ((if at_a_fair then show_at "booth" else show_at "spring") ∷ []);
}

closed_lot :
    artwork_context_grids loaders lot true
    ≡ some (artist_artwork_grid (some artist) ∷ related_artwork_grid ∷ [])
unfolding artwork_context_grids auction_grids
closed_lot = refl

in_booth :
    artwork_context_grids loaders (record work { id = "booth_work" }) false
    ≡ some (show_artwork_grid (show_at "booth") true ∷ artist_artwork_grid (some artist) ∷ [])
unfolding artwork_context_grids fair_show_grids
in_booth = refl

work_in_show : context loaders work ≡ some (some (show_context (show_at "spring")))
unfolding context
work_in_show = refl

abbrev grid_loaders : GridLoaders
grid_loaders = record {
  artist_artworks = λ id args. some (some args.exclude_ids);
  sale_artworks = λ id args. some [];
  partner_artworks = λ id args. none;
  partner_show_artworks = λ partner show args. none;
  related_layers = λ id.
      some
        (record { id = "fair"; type = "fair" } ∷ record { id = "main"; type = "synthetic" } ∷ []);
  related_layer_artworks = λ layer type id size. some (layer ∷ type ∷ id ∷ []);
  parse_int = λ text. 0;
}

abbrev second_page : GravityArgs Unit
second_page = record { size = some 2; page = 2; offset = pos 2; rest = tt }

artist_works :
    artworks_connection grid_loaders second_page work (artist_artwork_grid (some artist))
    ≡ some (some (record { artworks = "5f0" ∷ []; array_length = 7; slice_start = pos 2 }))
unfolding artworks_connection form_default_gravity_args
artist_works = refl

related_works :
    artworks_connection grid_loaders second_page work related_artwork_grid
    ≡ some (
        some (record {
          artworks = "main" ∷ "synthetic" ∷ "rage" ∷ [];
          array_length = 3;
          slice_start = pos 0;
        }))
unfolding artworks_connection
related_works = refl

artist_title : title (artist_artwork_grid (some artist)) ≡ some "Other works by Banksy"
unfolding title
artist_title = refl
