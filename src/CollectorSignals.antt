-- ===== src/CollectorSignals.antt =====
-- The signals of an artwork for collectors: src/schema/v2/artwork/collectorSignals.ts.
-- A loader that rejects answers `none`; times are texts, and whether one is not after the present is
-- a parameter.
pub mod Reasons
pub mod Lots
mod Tests
use metaphysics.Common.{
  ℕ, String, Bool, true, false, not, ◌||◌, ◌&&◌, Option, none, some, List, [], ◌∷◌, if◌then◌else◌,
  str_eq, is_some, is_truthy, or_else, or_text, includes, any, find, length, ltb, ◌>>=◌,
}
use mathlib.Core.Option

pub record Artwork : Type 0 where
  pub mongo_id : String
  pub id : String
  pub sale_ids : Option (List String)
  pub show_ids : Option (List String)
  pub purchasable : Bool
  pub inquireable : Bool
  pub increased_interest_signal : Bool
  pub recent_saves_count : Option ℕ

pub record SaleArtwork : Type 0 where
  pub bidder_positions_count : Option ℕ
  pub extended_bidding_end_at : Option String
  pub end_at : Option String
  pub ended_at : Option String

pub record Sale : Type 0 where
  pub id : String
  pub registration_ends_at : Option String
  pub live_start_at : Option String
  pub ended_at : Option String

pub record PartnerOffer : Type 0 where
  pub id : String
  pub active : Bool

-- The values of `LabelSignalEnum`.
pub data LabelSignal : Type 0 where
  partner_offer increased_interest curators_pick : LabelSignal

-- `sales` and `sale_artwork` may answer null, as may the offers' body; the loader of offers is there for a logged-in user.
pub record Loaders : Type 0 where
  pub marketing_collection : String → Option (List String)
  pub sales : List String → Option (Option (List Sale))
  pub sale_artwork : String → String → Option (Option SaleArtwork)
  pub me_partner_offers : Option (String → Option (Option (List PartnerOffer)))
  pub shows : List String → Option (List String)

abbrev pub first {ℓ} : {A : Type ℓ} → List A → Option A
first [] = none
first (x ∷ xs) = some x

abbrev pub is_auction_artwork : Artwork → Bool
is_auction_artwork artwork = elim artwork.sale_ids [ none ↦ false | some ids ↦ ltb 0 (length ids) ]

-- `resolve` of `CollectorSignals`: the artwork, or null.
unfoldable pub collector_signals : Artwork → Option Artwork
collector_signals artwork =
    if artwork.purchasable || (artwork.inquireable || is_auction_artwork artwork)
    then some artwork
    else none

unfoldable pub get_increased_interest : Artwork → Bool
get_increased_interest artwork =
    not (is_auction_artwork artwork) && artwork.increased_interest_signal

abbrev pub label_name : LabelSignal → String
label_name partner_offer = "PARTNER_OFFER"
label_name increased_interest = "INCREASED_INTEREST"
label_name curators_pick = "CURATORS_PICK"

-- `ignoreLabels?.includes(label)`
abbrev pub is_ignored : Option (List LabelSignal) → LabelSignal → Bool
is_ignored none label = false
is_ignored (some labels) label =
    any (λ (l : LabelSignal). str_eq (label_name l) (label_name label)) labels

abbrev pub available_label_count : ℕ
available_label_count = 3

-- What the code makes of the active lot.
pub record AuctionSignals : Type 0 where
  pub sale_artwork : SaleArtwork
  pub sale : Sale
  pub lot_closes_at : Option String
  pub bid_count : ℕ
  pub lot_watcher_count : ℕ
  pub live_bidding_started : Bool
  pub online_bidding_extended : Bool

-- The result of `primaryLabel`: an exception, a rejected request, or a label or null.
pub data PrimaryLabel : Type 0 where
  too_many_ignored rejected : PrimaryLabel
  label : Option LabelSignal → PrimaryLabel

-- Nothing if it has ended.
abbrev pub unless_ended : {A : Type 0} → (A → Option String) → Option A → Option A
unless_ended ended_at none = none
unless_ended ended_at (some a) = if is_truthy (ended_at a) then none else some a

abbrev pub lot_end : SaleArtwork → Option String
lot_end lot = lot.ended_at

abbrev pub sale_end : Sale → Option String
sale_end sale = sale.ended_at

abbrev pub with_sale : Sale → Option SaleArtwork → Option (SaleArtwork × Sale)
with_sale sale lot = Option.map (λ (l : SaleArtwork). (l, sale)) (unless_ended lot_end lot)

-- The fields of `AuctionCollectorSignals`, given whether a time is not after the present.
unfoldable pub auction_signals : (String → Bool) → Artwork → SaleArtwork × Sale → AuctionSignals
auction_signals has_passed artwork (lot, sale) = record {
  sale_artwork = lot;
  sale = sale;
  lot_closes_at =
      if is_truthy sale.live_start_at then none else or_text lot.extended_bidding_end_at lot.end_at;
  bid_count = or_else lot.bidder_positions_count 0;
  lot_watcher_count = or_else artwork.recent_saves_count 0;
  live_bidding_started = is_truthy sale.live_start_at && has_passed (or_else sale.live_start_at "");
  online_bidding_extended = is_truthy lot.extended_bidding_end_at;
}

abbrev pub chosen_label : Bool → Bool → Option LabelSignal
chosen_label is_pick increased =
    if is_pick then some curators_pick else if increased then some increased_interest else none

module _ (loaders : Loaders) where
  -- All of the collections, of which there is one, are loaded.
  unfoldable pub get_is_curators_pick : Artwork → Option Bool
  get_is_curators_pick artwork = do
    artwork_ids ← loaders.marketing_collection "curators-picks-emerging-artists"
    some (includes artwork_ids artwork.mongo_id)

  -- A label that is ignored is not asked for.
  unfoldable pub get_primary_label :
      Artwork → Option (List LabelSignal) → Option (Option LabelSignal)
  unfolding get_is_curators_pick get_increased_interest
  get_primary_label artwork ignore =
      let loaded =
        if is_ignored ignore curators_pick then some false else get_is_curators_pick artwork in
      let increased =
        not (is_ignored ignore increased_interest) && get_increased_interest artwork in
      let chosen = Option.map (λ (is_pick : Bool). chosen_label is_pick increased) loaded in
      if is_auction_artwork artwork then some none else chosen

  abbrev pub answered : Option (Option LabelSignal) → PrimaryLabel
  answered none = rejected
  answered (some l) = label l

  unfoldable pub primary_label : Artwork → Option (List LabelSignal) → PrimaryLabel
  unfolding get_primary_label
  primary_label artwork ignore =
      let count = elim ignore as (λ x. ℕ) [ none ↦ 0 | some labels ↦ length labels ] in
      if ltb available_label_count count
      then too_many_ignored
      else answered (get_primary_label artwork ignore)

  unfoldable pub get_active_partner_offer : Artwork → Option (Option PartnerOffer)
  get_active_partner_offer artwork = elim loaders.me_partner_offers [
    | none ↦ some none
    | some load ↦
        let offers = load artwork.id in
        if not artwork.purchasable
        then some none
        else Option.map
            (λ (body : Option (List PartnerOffer)).
              find (λ (o : PartnerOffer). o.active) (or_else body []))
            offers
  ]

  abbrev pub active_lot : Artwork → Option Sale → Option (Option (SaleArtwork × Sale))
  active_lot artwork none = some none
  active_lot artwork (some sale) =
      Option.map (with_sale sale) (loaders.sale_artwork sale.id artwork.mongo_id)

  abbrev pub lot_of_first : Artwork → Option (List Sale) → Option (Option (SaleArtwork × Sale))
  lot_of_first artwork sales = active_lot artwork (unless_ended sale_end (first (or_else sales [])))

  unfoldable pub get_active_auction_values : Artwork → Option (Option (SaleArtwork × Sale))
  get_active_auction_values artwork =
      let found = loaders.sales (or_else artwork.sale_ids []) >>= lot_of_first artwork in
      if is_auction_artwork artwork then found else some none

  -- `resolve` of `AuctionCollectorSignals`, with its fields
  unfoldable pub auction_collector_signals :
      (String → Bool) → Artwork → Option (Option AuctionSignals)
  unfolding get_active_auction_values
  auction_collector_signals has_passed artwork =
      Option.map (Option.map (auction_signals has_passed artwork))
        (get_active_auction_values artwork)

  -- The most recent running show, undefined if there is none.
  unfoldable pub running_show : Artwork → Option (Option String)
  running_show artwork = elim artwork.show_ids [
    | none ↦ some none
    | some [] ↦ some none
    | some (id ∷ ids) ↦ Option.map first (loaders.shows (id ∷ ids))
  ]
