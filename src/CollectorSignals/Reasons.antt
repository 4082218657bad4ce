-- ===== src/CollectorSignals/Reasons.antt =====
-- What the primary label of a work says of it.
use mathlib.Core.Option
use metaphysics.Common.{Bool, true, false, Option, some, List, ◌≡◌}
use metaphysics.CollectorSignals.{
  Artwork, LabelSignal, partner_offer, increased_interest, curators_pick, Loaders,
  is_auction_artwork, is_ignored, get_is_curators_pick,
}

-- Why a work has a label: it is among the curators' picks, or there is interest in it. No work has
-- the label of a partner's offer.
abbrev pub HasReason : Loaders → Artwork → LabelSignal → Type 0
HasReason loaders artwork partner_offer = ⊥
HasReason loaders artwork increased_interest = artwork.increased_interest_signal ≡ true
HasReason loaders artwork curators_pick = get_is_curators_pick loaders artwork ≡ some true

module _ (loaders : Loaders) (artwork : Artwork) (ignore : Option (List LabelSignal)) where
  abbrev Reason : LabelSignal → Type 0
  Reason l =
      (is_auction_artwork artwork ≡ false)
      × (is_ignored ignore l ≡ false)
      × HasReason loaders artwork l
