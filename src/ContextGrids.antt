-- ===== src/ContextGrids.antt =====
-- The grids of works beside an artwork, and the artwork's context:
-- src/schema/v2/artwork/artworkContextGrids/index.ts, the grids' types beside it, and
-- src/schema/v2/artwork/context.ts. A loader that rejects answers `none`. A list of a loader that is
-- missing is an empty one, since the code treats both alike.
pub mod Connections
pub mod Ordered
mod Tests
use metaphysics.Common.{
  ℕ, String, Bool, true, false, not, ◌&&◌, Option, none, some, List, [], ◌∷◌, ◌++◌, map,
  if◌then◌else◌, str_eq, ◌<>◌, keep, or_else, ◌>>=◌,
}
use mathlib.Core.Option

pub record Artist : Type 0 where
  pub id : String
  pub name : String
  pub forsale_artworks_count : ℕ
  pub published_artworks_count : ℕ

pub record Partner : Type 0 where
  pub id : String
  pub name : String
  pub default_profile_id : String

pub record Sale : Type 0 where
  pub id : String
  pub name : String
  pub is_auction : Bool
  pub auction_state : Option String
  pub eligible_sale_artworks_count : ℕ

pub record Fair : Type 0 where
  pub id : String
  pub has_full_feature : Bool

pub record Show : Type 0 where
  pub id : String
  pub name : String
  pub partner_id : String

pub record Artwork : Type 0 where
  pub mongo_id : String
  pub id : String
  pub artist : Option Artist
  pub partner : Option Partner
  pub sale_ids : Option (List String)
  pub show_ids : Option (List String)

-- `saleLoader` answers a sale or null, `showsLoader` takes whether the shows are at a fair.
pub record Loaders : Type 0 where
  pub sale : String → Option (Option Sale)
  pub sales : List String → Option (List Sale)
  pub related_fairs : String → Option (List Fair)
  pub shows : Bool → List String → Option (List Show)

-- The values of `gridType`, with what the code puts beside it. A show has `atAFair`.
pub data Grid : Type 0 where
  artist_artwork_grid : Option Artist → Grid
  related_artwork_grid : Grid
  auction_artwork_grid : Sale → Grid
  show_artwork_grid : Show → Bool → Grid
  partner_artwork_grid : Option Partner → Grid

abbrev pub first {ℓ} : {A : Type ℓ} → List A → Option A
first [] = none
first (x ∷ xs) = some x

-- `artist ? [...] : []`, and the others of the kind
abbrev pub artist_grids : Artwork → List Grid
artist_grids artwork = elim artwork.artist [
  | none ↦ []
  | some artist ↦ artist_artwork_grid (some artist) ∷ []
]

abbrev pub partner_grids : Artwork → List Grid
partner_grids artwork = elim artwork.partner [
  | none ↦ []
  | some partner ↦ partner_artwork_grid (some partner) ∷ []
]

abbrev pub related_grids : Bool → List Grid
related_grids include_related_artworks =
    if include_related_artworks then related_artwork_grid ∷ [] else []

abbrev pub is_closed : Sale → Bool
is_closed sale = elim sale.auction_state [ none ↦ false | some state ↦ str_eq state "closed" ]

-- The grids of a lot: of a sale that is an auction.
unfoldable pub auction_grids : Artwork → Bool → Sale → List Grid
auction_grids artwork related sale =
    if is_closed sale
    then artist_grids artwork ++ related_grids related
    else auction_artwork_grid sale ∷ []

unfoldable pub fair_show_grids : Artwork → Bool → Show → List Grid
fair_show_grids artwork related show =
    show_artwork_grid show true ∷ artist_grids artwork ++ related_grids related

-- The grids of a show, or the default ones.
unfoldable pub show_grids : Artwork → Bool → Option Show → List Grid
show_grids artwork related none =
    artist_grids artwork ++ (partner_grids artwork ++ related_grids related)
show_grids artwork related (some show) =
    show_artwork_grid show false ∷ artist_grids artwork
    ++ (partner_grids artwork ++ related_grids related)

module _ (loaders : Loaders) where
  -- The artwork's auction, asked for by its first sale id.
  abbrev pub auction_of : Option (List String) → Option (Option Sale)
  auction_of none = some none
  auction_of (some []) = some none
  auction_of (some (id ∷ ids)) = do
    sale ← loaders.sale id
    some (elim sale [ none ↦ none | some s ↦ if s.is_auction then some s else none ])

  -- The first show, at a fair or not, if the artwork has shows at all.
  abbrev pub show_of : Bool → Option (List String) → Option (Option Show)
  show_of at_a_fair none = some none
  show_of at_a_fair (some []) = some none
  show_of at_a_fair (some (id ∷ ids)) = Option.map first (loaders.shows at_a_fair (id ∷ ids))

  abbrev pub fair_with_full_feature : Artwork → Option (Option Fair)
  fair_with_full_feature artwork = do
    fairs ← loaders.related_fairs artwork.id
    some (elim (first fairs) [
      | none ↦ none
      | some fair ↦ if fair.has_full_feature then some fair else none
    ])

  abbrev pub fair_show_of : Artwork → Option Fair → Option (Option Show)
  fair_show_of artwork none = some none
  fair_show_of artwork (some fair) = show_of true artwork.show_ids

  abbrev pub grids_outside_fairs : Artwork → Bool → Option Show → Option (List Grid)
  grids_outside_fairs artwork related (some show) = some (fair_show_grids artwork related show)
  grids_outside_fairs artwork related none =
      Option.map (show_grids artwork related) (show_of false artwork.show_ids)

  abbrev pub grids_outside_auctions : Artwork → Bool → Option (List Grid)
  grids_outside_auctions artwork related = do
    fair ← fair_with_full_feature artwork
    fair_show ← fair_show_of artwork fair
    grids_outside_fairs artwork related fair_show

  -- `resolve` of `ArtworkContextGrids`
  unfoldable pub artwork_context_grids : Artwork → Bool → Option (List Grid)
  artwork_context_grids artwork related = do
    auction ← auction_of artwork.sale_ids
    elim auction [
      | some sale ↦ some (auction_grids artwork related sale)
      | none ↦ grids_outside_auctions artwork related
    ]

-- The context of an artwork, with its `context_type`.
pub data ArtworkContext : Type 0 where
  auction_context : Sale → ArtworkContext
  sale_context : Sale → ArtworkContext
  fair_context : Fair → ArtworkContext
  show_context : Show → ArtworkContext

abbrev pub context_of_sale : Sale → ArtworkContext
context_of_sale sale = if sale.is_auction then auction_context sale else sale_context sale

-- `compact`, then `first`
abbrev pub choose : List (Option ArtworkContext) → Option ArtworkContext
choose [] = none
choose (none ∷ contexts) = choose contexts
choose (some context ∷ contexts) = some context

module _ (loaders : Loaders) where
  abbrev pub sale_promise : Option (List String) → Option (Option ArtworkContext)
  sale_promise none = some none
  sale_promise (some []) = some none
  sale_promise (some (id ∷ ids)) = do
    sales ← loaders.sales (id ∷ ids)
    some (Option.map context_of_sale (first sales))

  -- `resolve` of `Context`, which waits for all three.
  unfoldable pub context : Artwork → Option (Option ArtworkContext)
  context artwork = do
    sale ← sale_promise artwork.sale_ids
    fair ← fair_with_full_feature loaders artwork
    show ← show_of loaders false artwork.show_ids
    some (choose (sale ∷ Option.map fair_context fair ∷ Option.map show_context show ∷ []))
