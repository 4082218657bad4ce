-- ===== src/CollectorSignals/Tests.antt =====
-- Works with labels, and a lot of an auction that is held live.
use metaphysics.Common.{
  String, Bool, true, false, Option, none, some, List, [], ◌∷◌, ◌≡◌, refl, str_eq,
}
use metaphysics.CollectorSignals.{
  Artwork, Sale, SaleArtwork, PartnerOffer, LabelSignal, partner_offer, curators_pick, Loaders,
  AuctionSignals, too_many_ignored, label, get_increased_interest, get_is_curators_pick,
  get_primary_label, primary_label, get_active_partner_offer, get_active_auction_values,
  auction_signals, auction_collector_signals, collector_signals, running_show,
}
use metaphysics.CollectorSignals.Lots.{IsActive, auction_collector_signals-IsActive}

abbrev work : Artwork
work = record {
  mongo_id = "w";
  id = "work";
  sale_ids = none;
  show_ids = some ("show" ∷ []);
  purchasable = true;
  inquireable = false;
  increased_interest_signal = true;
  recent_saves_count = some 9;
}

abbrev lot : Artwork
lot = record work { sale_ids = some ("evening" ∷ []) }

abbrev sale_lot : SaleArtwork
sale_lot = record {
  bidder_positions_count = none;
  extended_bidding_end_at = some "noon";
  end_at = some "eleven";
  ended_at = none;
}

abbrev evening : Sale
evening = record {
  id = "evening";
  registration_ends_at = none;
  live_start_at = some "ten";
  ended_at = none;
}

abbrev offer : PartnerOffer
offer = record { id = "offer"; active = true }

abbrev loaders : Loaders
loaders = record {
  marketing_collection = λ slug. some ("v" ∷ "w" ∷ []);
  sales = λ ids. some (some (evening ∷ []));
  sale_artwork = λ sale id. some (some sale_lot);
  me_partner_offers = some (λ id. some (some (record offer { active = false } ∷ offer ∷ [])));
  shows = λ ids. some ids;
}

abbrev has_passed : String → Bool
has_passed time = str_eq time "ten"

abbrev ignored : Option (List LabelSignal)
ignored = some (curators_pick ∷ [])

first_label : primary_label loaders work none ≡ label (some curators_pick)
unfolding primary_label get_is_curators_pick get_primary_label
first_label = refl

four_ignored :
    primary_label loaders work
      (some (partner_offer ∷ curators_pick ∷ curators_pick ∷ partner_offer ∷ []))
    ≡ too_many_ignored
unfolding primary_label
four_ignored = refl

abbrev lot_signals : AuctionSignals
lot_signals = record {
  sale_artwork = sale_lot;
  sale = evening;
  lot_closes_at = none;
  bid_count = 0;
  lot_watcher_count = 9;
  live_bidding_started = true;
  online_bidding_extended = true;
}

lot_answer : auction_collector_signals loaders has_passed lot ≡ some (some lot_signals)
unfolding auction_collector_signals get_active_auction_values auction_signals
lot_answer = refl

auction_collector_signals-IsActive_example :
    IsActive lot_signals
    × (get_primary_label loaders lot none ≡ some none)
    × (get_increased_interest lot ≡ false)
auction_collector_signals-IsActive_example =
    auction_collector_signals-IsActive loaders lot has_passed none lot_signals lot_answer

active_offer : get_active_partner_offer loaders work ≡ some (some offer)
unfolding get_active_partner_offer
active_offer = refl

in_show : running_show loaders work ≡ some (some "show")
unfolding running_show
in_show = refl

with_signals : collector_signals lot ≡ some lot
unfolding collector_signals
with_signals = refl
