-- ===== src/MyBids.antt =====
-- The bids of a user: src/schema/v2/me/myBids.ts. A loader that rejects answers `none`; the texts
-- of the requests to services are left out, and of a lot and a sale artwork the fields that the
-- code reads. What moment makes of times is a parameter.
pub mod Resolver
pub mod Divided
pub mod Lots
pub mod Asked
pub mod Answered
mod Tests
use metaphysics.Common.{
  ℕ, String, Bool, true, false, not, ◌||◌, ◌&&◌, Option, none, some, List, [], ◌∷◌, ◌++◌, map,
  if◌then◌else◌, str_eq, includes, has_text, keep, find, is_some, is_truthy, or_else,
}
use mathlib.Core.Option
use metaphysics.Common.Sort.{sort_by}

pub record Lot : Type 0 where
  pub bid_count : Option ℕ
  pub internal_id : String
  pub reserve_status : Option String
  pub sale_id : String
  pub sold_status : Option String
  pub selling_price_cents : Option ℕ

pub record LotStanding : Type 0 where
  pub is_highest_bidder : Bool
  pub lot : Lot

pub record Sale : Type 0 where
  pub database_id : String
  pub id : String
  pub auction_state : Option String
  pub live_start_at : Option String
  pub end_at : Option String

-- Gravity's standing of a lot.
pub record GravityLotStanding : Type 0 where
  pub sale_artwork_id : String
  pub bidder_positions_count : Option ℕ
  pub reserve_status : Option String
  pub highest_bid_cents : Option ℕ
  pub sale : Sale
  pub has_leading_position : Bool

pub record SaleArtwork : Type 0 where
  pub database_id : String
  pub sale_id : String
  pub artwork_sale_ids : List String
  pub position : Option ℕ

pub record SaleArtworkWithPosition : Type 0 where
  pub sale_artwork : SaleArtwork
  pub is_watching : Bool
  pub lot_state : Option Lot
  pub is_highest_bidder : Bool

-- A sale with its lots and what it is sorted by.
pub record MyBid : Type 0 where
  pub sale : Sale
  pub sale_artworks : List SaleArtworkWithPosition
  pub is_live_auction : Bool
  pub is_closed : Bool
  pub is_active : Bool
  pub end_at : Option String
  pub live_bidding_started : Bool

-- `moment(t).unix()`, where NaN is `none`, and `moment().isAfter(moment(t))`
pub record Clock : Type 0 where
  pub unix : Option String → Option ℕ
  pub is_past : Option String → Bool

abbrev pub equals : Option String → String → Bool
equals none t = false
equals (some s) t = str_eq s t

unfoldable pub get_sold_status : GravityLotStanding → Option String
get_sold_status standing =
    if equals standing.sale.auction_state "open"
    then some "ForSale"
    else if equals standing.sale.auction_state "closed"
    then if equals standing.reserve_status "reserve_met"
        || equals standing.reserve_status "no_reserve"
      then some "Sold"
      else some "Passed"
    else none

abbrev pub reserve_status_of : Option String → Option String
reserve_status_of status =
    if equals status "reserve_met"
    then some "ReserveMet"
    else if equals status "no_reserve"
    then some "NoReserve"
    else if equals status "reserve_not_met"
    then some "ReserveNotMet"
    else none

unfoldable pub format_gravity_lot_standing : GravityLotStanding → LotStanding
unfolding get_sold_status
format_gravity_lot_standing standing = record {
  is_highest_bidder = standing.has_leading_position;
  lot = record {
    bid_count = standing.bidder_positions_count;
    internal_id = standing.sale_artwork_id;
    reserve_status = reserve_status_of standing.reserve_status;
    sale_id = standing.sale.database_id;
    sold_status = get_sold_status standing;
    selling_price_cents = standing.highest_bid_cents;
  };
}

-- The entry of a sale in the standings grouped by sale.
abbrev pub standings_in : String → List LotStanding → List LotStanding
standings_in sale_id standings = keep (λ (s : LotStanding). str_eq s.lot.sale_id sale_id) standings

abbrev pub marked : Bool → SaleArtwork → SaleArtwork × Bool
marked is_watching artwork = (artwork, is_watching)

-- The lots of a sale that the user watches and has not bid on.
abbrev pub watched_only : Sale → List SaleArtwork → List String → List SaleArtwork
watched_only sale watched bid_upon_ids =
    keep
      (λ (a : SaleArtwork). str_eq a.sale_id sale.id && not (includes bid_upon_ids a.database_id))
      watched

abbrev pub with_standing : List LotStanding → SaleArtwork × Bool → SaleArtworkWithPosition
with_standing standings (artwork, is_watching) =
    let standing =
      find (λ (s : LotStanding). str_eq s.lot.internal_id artwork.database_id) standings in
    record {
      sale_artwork = artwork;
      is_watching = is_watching;
      lot_state = Option.map (λ (s : LotStanding). s.lot) standing;
      is_highest_bidder =
          or_else (Option.map (λ (s : LotStanding). s.is_highest_bidder) standing) false;
    }

unfoldable pub lots_of :
    List LotStanding → List SaleArtwork → List SaleArtwork → Sale → List SaleArtworkWithPosition
lots_of standings watched bid_upon sale =
    let ids = map (λ (a : SaleArtwork). a.database_id) bid_upon in
    let all = map (marked true) (watched_only sale watched ids) ++ map (marked false) bid_upon in
    map (with_standing (standings_in sale.database_id standings)) all

-- `withSaleInfo`, with the sale and its lots
unfoldable pub with_sale_info : Clock → Sale → List SaleArtworkWithPosition → MyBid
with_sale_info clock sale lots =
    let is_live = is_truthy sale.live_start_at in
    let closed = equals sale.auction_state "closed" in
    let state = or_else sale.auction_state "" in
    record {
      sale = sale;
      sale_artworks = lots;
      is_live_auction = is_live;
      is_closed = closed;
      is_active = has_text state "open" || has_text state "preview";
      end_at = if is_live then sale.live_start_at else sale.end_at;
      live_bidding_started = if is_live || closed then false else clock.is_past sale.live_start_at;
    }

pub record SortedBids : Type 0 where
  pub active : List MyBid
  pub closed : List MyBid

unfoldable pub sort_lots : MyBid → MyBid
unfolding sort_by
sort_lots bid = record bid {
  sale_artworks =
      sort_by (λ (a : SaleArtworkWithPosition). a.sale_artwork.position) bid.sale_artworks;
}

abbrev pub prune_watched : MyBid → MyBid
prune_watched bid = record bid {
  sale_artworks = keep (λ (a : SaleArtworkWithPosition). is_some a.lot_state) bid.sale_artworks;
}

unfoldable pub sort_sales : Clock → List MyBid → SortedBids
unfolding sort_by sort_lots
sort_sales clock bids =
    let sorted = map sort_lots (sort_by (λ (b : MyBid). clock.unix b.end_at) bids) in
    record {
      active = keep (λ (b : MyBid). not b.is_closed) sorted;
      closed = map prune_watched (keep (λ (b : MyBid). b.is_closed) sorted);
    }
