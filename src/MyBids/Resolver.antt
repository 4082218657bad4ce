-- ===== src/MyBids/Resolver.antt =====
-- The resolver of src/schema/v2/me/myBids.ts: what it asks of the services, in order, and how it
-- joins the answers. `none` is the rejection of a request, which rejects all.
use metaphysics.Common.{
  uniq_by, ℕ, String, Option, none, some, List, [], ◌∷◌, ◌++◌, map, if◌then◌else◌, str_eq, uniq,
  length, get_elem?, or_else, ◌==◌, ◌>>=◌,
}
use metaphysics.MyBids.{
  LotStanding, Sale, GravityLotStanding, SaleArtwork, MyBid, Clock, SortedBids,
  format_gravity_lot_standing, standings_in, lots_of, with_sale_info, sort_sales,
}

-- The loaders, and moment. The standings of Causality are those of a user, none if the response has
-- no edges.
pub record Services : Type 0 where
  pub clock : Clock
  pub me : Option String
  pub causality : String → Option (List LotStanding)
  pub lot_standings : Option (List GravityLotStanding)
  pub registered_sales : Option (List Sale)
  pub watched_sale_artworks : Option (List SaleArtwork)
  pub sale : String → Option Sale
  pub sale_artworks : String → List String → ℕ → Option (List SaleArtwork)

-- `Promise.all` over a list
abbrev pub all_of : {A B : Type 0} → (A → Option B) → List A → Option (List B)
all_of f [] = some []
all_of f (x ∷ xs) = do y ← f x; ys ← all_of f xs; some (y ∷ ys)

-- `uniqBy(sales, sale => sale.id)`
abbrev pub uniq_sales : List Sale → List Sale
uniq_sales sales = uniq_by (λ (s : Sale). s.id) [] sales

-- The keys of the standings by sale, the registered sales, and the first sale of each watched lot.
unfoldable pub combined_sale_ids : List LotStanding → List Sale → List SaleArtwork → List String
combined_sale_ids standings registered watched = uniq (
    uniq (map (λ (s : LotStanding). s.lot.sale_id) standings)
    ++ (map (λ (s : Sale). s.database_id) registered
        ++ map (λ (a : SaleArtwork). or_else (get_elem? a.artwork_sale_ids 0) "undefined") watched))

module _ (services : Services) where
  -- The lots of a sale with a bid, with the sale's id: no request where there are no standings.
  unfoldable pub bid_upon_in : List LotStanding → Sale → Option (String × List SaleArtwork)
  bid_upon_in standings sale = do
    let lot_ids =
        map (λ (s : LotStanding). s.lot.internal_id) (standings_in sale.database_id standings)
    let request = services.sale_artworks sale.database_id lot_ids (length lot_ids)
    artworks ← if length lot_ids == 0 then some [] else request
    some (sale.database_id, artworks)

  -- A later entry of the same id overrides.
  abbrev pub bid_upon_of :
      String → List (String × List SaleArtwork) → List SaleArtwork → List SaleArtwork
  bid_upon_of id [] found = found
  bid_upon_of id ((key, artworks) ∷ entries) found =
      bid_upon_of id entries (if str_eq key id then artworks else found)

  abbrev pub loaded_sale :
      List LotStanding → List SaleArtwork → List (String × List SaleArtwork) → Sale → MyBid
  loaded_sale standings watched entries sale =
      with_sale_info services.clock sale
        (lots_of standings watched (bid_upon_of sale.database_id entries []) sale)

  unfoldable pub load_bids : Option SortedBids
  unfolding bid_upon_in combined_sale_ids
  load_bids = do
    me ← services.me
    from_causality ← services.causality me
    from_gravity ← services.lot_standings
    registered ← services.registered_sales
    watched ← services.watched_sale_artworks
    let standings = from_causality ++ map format_gravity_lot_standing from_gravity
    loaded ← all_of services.sale (combined_sale_ids standings registered watched)
    let sales = uniq_sales loaded
    entries ← all_of (bid_upon_in standings) sales
    some (sort_sales services.clock (map (loaded_sale standings watched entries) sales))

-- The services are missing for a user who is not logged in.
abbrev pub my_bids : Option Services → Option (Option SortedBids)
my_bids none = some none
my_bids (some services) = load_bids services >>= λ bids. some (some bids)
