-- ===== src/MyBids/Tests.antt =====
-- The bids of a user with an open and a closed sale.
use metaphysics.Common.{
  ℕ, String, Bool, true, false, Option, none, some, List, [], ◌∷◌, map, if◌then◌else◌, str_eq, All,
  ◌≡◌, refl, ◌||◌,
}
use metaphysics.MyBids.{
  LotStanding, Sale, GravityLotStanding, SaleArtwork, SaleArtworkWithPosition, MyBid, SortedBids,
  lots_of, with_sale_info, sort_sales, format_gravity_lot_standing,
}
use metaphysics.MyBids.Answered.{Told}
use metaphysics.MyBids.Lots.{ids_of, bid_lots, IsMarked, lots_of-marks}
use metaphysics.MyBids.Resolver.{Services, load_bids, loaded_sale, my_bids}

abbrev open_sale : Sale
open_sale = record {
  database_id = "id-open";
  id = "open-sale";
  auction_state = some "open";
  live_start_at = none;
  end_at = some "2030";
}

abbrev closed_sale : Sale
closed_sale = record {
  database_id = "id-closed";
  id = "closed-sale";
  auction_state = some "closed";
  live_start_at = some "2020";
  end_at = none;
}

abbrev artwork : String → String → ℕ → SaleArtwork
artwork id sale_id position = record {
  database_id = id;
  sale_id = sale_id;
  artwork_sale_ids = sale_id ∷ [];
  position = some position;
}

abbrev standing : LotStanding
standing = record {
  is_highest_bidder = true;
  lot = record {
    bid_count = some 1;
    internal_id = "lot-1";
    reserve_status = some "ReserveMet";
    sale_id = "id-open";
    sold_status = some "ForSale";
    selling_price_cents = none;
  };
}

abbrev gravity_standing : GravityLotStanding
gravity_standing = record {
  sale_artwork_id = "lot-3";
  bidder_positions_count = some 2;
  reserve_status = some "no_reserve";
  highest_bid_cents = some 10000;
  sale = closed_sale;
  has_leading_position = false;
}

-- A lot with a bid, a watched lot, and a watched lot of the closed sale.
abbrev watched : List SaleArtwork
watched =
    artwork "lot-1" "open-sale" 2
    ∷ artwork "lot-2" "open-sale" 1
    ∷ artwork "lot-4" "closed-sale" 1
    ∷ []

abbrev services : Services
services = record {
  clock = record { unix = λ t. none; is_past = λ t. false };
  me = some "user-1";
  causality = λ me. some (standing ∷ []);
  lot_standings = some (gravity_standing ∷ []);
  registered_sales = some (open_sale ∷ []);
  watched_sale_artworks = some watched;
  sale = λ (id : String).
      if str_eq id "id-closed" || str_eq id "closed-sale" then some closed_sale else some open_sale;
  sale_artworks = λ (id : String) (ids : List String) (size : ℕ). some (
      map
        (λ (lot : String).
          artwork lot (if str_eq id "id-open" then "open-sale" else "closed-sale") 2)
        ids);
}

abbrev shown_lots : MyBid → String × List (String × (Bool × Bool))
shown_lots bid = (
  bid.sale.id,
  map
      (λ (a : SaleArtworkWithPosition).
        (a.sale_artwork.database_id, (a.is_watching, a.is_highest_bidder)))
      bid.sale_artworks,
)

abbrev shown_bids :
    Option SortedBids
    → Option (
        List (String × List (String × (Bool × Bool)))
        × List (String × List (String × (Bool × Bool))))
shown_bids none = none
shown_bids (some bids) = some (map shown_lots bids.active, map shown_lots bids.closed)

both_sales :
    shown_bids (load_bids services)
    ≡ some (
      ("open-sale", ("lot-2", (true, false)) ∷ ("lot-1", (false, true)) ∷ []) ∷ [],
      ("closed-sale", ("lot-3", (false, false)) ∷ []) ∷ [],
    )
unfolding load_bids sort_sales lots_of format_gravity_lot_standing with_sale_info
both_sales = refl

logged_out : my_bids none ≡ some none
logged_out = refl

one_rejected : load_bids (record services { registered_sales = none }) ≡ none
unfolding load_bids format_gravity_lot_standing
one_rejected = refl

abbrev two_bids : List MyBid
two_bids =
    map
      (loaded_sale services (standing ∷ format_gravity_lot_standing gravity_standing ∷ []) watched
        [])
      (closed_sale ∷ open_sale ∷ [])

abbrev bid_upon : List SaleArtwork
bid_upon = artwork "lot-1" "open-sale" 2 ∷ []

lots_of-marks_example :
    All (IsMarked (ids_of bid_upon) open_sale) (lots_of (standing ∷ []) watched bid_upon open_sale)
    × (bid_lots (lots_of (standing ∷ []) watched bid_upon open_sale) ≡ bid_upon)
lots_of-marks_example = lots_of-marks (standing ∷ []) watched bid_upon open_sale

abbrev told : Told services
told = record {
  me = "user-1";
  from_causality = standing ∷ [];
  from_gravity = gravity_standing ∷ [];
  registered = open_sale ∷ [];
  watched = watched;
  is_me = refl;
  is_causality = refl;
  is_gravity = refl;
  is_registered = refl;
  is_watched = refl;
}
