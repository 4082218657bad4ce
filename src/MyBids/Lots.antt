-- ===== src/MyBids/Lots.antt =====
-- The lots of a sale: those that the user watches, and those with a bid.
use mathlib.Core.List.{map-append}
use metaphysics.Common.{
  String, true, false, not, ◌&&◌, List, [], ◌∷◌, ◌++◌, map, str_eq, eq_iff, includes, keep, All,
  ◌≡◌, refl, ap, ◌∙◌, arith, Bool-cases, inl, inr,
}
use metaphysics.MyBids.{
  SaleArtwork, SaleArtworkWithPosition, Sale, LotStanding, marked, watched_only, with_standing,
  standings_in, lots_of,
}

abbrev pub ids_of : List SaleArtwork → List String
ids_of artworks = map (λ (a : SaleArtwork). a.database_id) artworks

-- A lot is marked as watched exactly if its id is not one of those with a bid, and a lot marked so is
-- of the sale.
abbrev pub IsMarked : List String → Sale → SaleArtworkWithPosition → Type 0
IsMarked bid_ids sale a =
    (includes bid_ids a.sale_artwork.database_id ≡ not a.is_watching)
    × (a.is_watching && not (str_eq a.sale_artwork.sale_id sale.id) ≡ false)

abbrev pub bid_lots : List SaleArtworkWithPosition → List SaleArtwork
bid_lots lots =
    map (λ (a : SaleArtworkWithPosition). a.sale_artwork)
      (keep (λ (a : SaleArtworkWithPosition). not a.is_watching) lots)

All-append : {A : Type 0} (P : A → Type 0) (xs ys : List A) → All P xs → All P ys → All P (xs ++ ys)
All-append P [] ys h k = k
All-append P (x ∷ xs) ys (a, h) k = (a, All-append P xs ys h k)

module _ (standings : List LotStanding) (bid_ids : List String) (sale : Sale) where
  watched-IsMarked :
      (watched : List SaleArtwork)
      → All
          (IsMarked bid_ids sale)
          (map (with_standing standings) (map (marked true) (watched_only sale watched bid_ids)))
  watched-IsMarked [] = tt
  watched-IsMarked (a ∷ watched) =
      elim (Bool-cases (str_eq a.sale_id sale.id && not (includes bid_ids a.database_id))) [
        | inl e ↦ rw e ((ground arith, ground arith), watched-IsMarked watched)
        | inr e ↦ rw e (watched-IsMarked watched)
      ]

  bid-IsMarked :
      (bids : List SaleArtwork)
      → All (λ (a : SaleArtwork). includes bid_ids a.database_id ≡ true) bids
      → All (IsMarked bid_ids sale) (map (with_standing standings) (map (marked false) bids))
  bid-IsMarked [] h = tt
  bid-IsMarked (a ∷ bids) (e, h) = ((e, refl), bid-IsMarked bids h)

  bid_lots-watched :
      (watched : List SaleArtwork)
      → bid_lots (map (with_standing standings) (map (marked true) watched)) ≡ []
  bid_lots-watched [] = refl
  bid_lots-watched (a ∷ watched) = bid_lots-watched watched

  bid_lots-bid :
      (bids : List SaleArtwork)
      → bid_lots (map (with_standing standings) (map (marked false) bids)) ≡ bids
  bid_lots-bid [] = refl
  bid_lots-bid (a ∷ bids) = ap (λ (l : List SaleArtwork). a ∷ l) (bid_lots-bid bids)

bid_lots-append :
    (xs ys : List SaleArtworkWithPosition) → bid_lots (xs ++ ys) ≡ bid_lots xs ++ bid_lots ys
bid_lots-append [] ys = refl
bid_lots-append (x ∷ xs) ys = elim (Bool-cases x.is_watching) [
  | inl e ↦ rw e (bid_lots-append xs ys)
  | inr e ↦ rw e (ap (λ (l : List SaleArtwork). x.sale_artwork ∷ l) (bid_lots-append xs ys))
]

All-later :
    (x : String) (ids : List String) (bids : List SaleArtwork)
    → All (λ (a : SaleArtwork). includes ids a.database_id ≡ true) bids
    → All (λ (a : SaleArtwork). includes (x ∷ ids) a.database_id ≡ true) bids
All-later x ids [] h = tt
All-later x ids (a ∷ bids) (e, h) = (ground arith, All-later x ids bids h)

own_ids :
    (bids : List SaleArtwork)
    → All (λ (a : SaleArtwork). includes (ids_of bids) a.database_id ≡ true) bids
own_ids [] = tt
own_ids (a ∷ bids) = (
  ground (arith, eq_iff a.database_id a.database_id),
  All-later a.database_id (ids_of bids) bids (own_ids bids),
)

-- The lots of a sale: each is marked as watched exactly if the user has not bid on it, the watched
-- ones are of this sale, and the others are the lots with a bid, each once more and in their order.
pub lots_of-marks :
    (standings : List LotStanding) (watched bid_upon : List SaleArtwork) (sale : Sale)
    → All (IsMarked (ids_of bid_upon) sale) (lots_of standings watched bid_upon sale)
      × (bid_lots (lots_of standings watched bid_upon sale) ≡ bid_upon)
unfolding lots_of
lots_of-marks standings watched bid_upon sale =
    let ids = ids_of bid_upon in
    let own = standings_in sale.database_id standings in
    let watching = map (with_standing own) (map (marked true) (watched_only sale watched ids)) in
    let bids = map (with_standing own) (map (marked false) bid_upon) in
    rw
      (
        lots_of,
        map-append (with_standing own) (map (marked true) (watched_only sale watched ids))
            (map (marked false) bid_upon),
      )
      (
        All-append (IsMarked ids sale) watching bids (watched-IsMarked own ids sale watched)
            (bid-IsMarked own ids sale bid_upon (own_ids bid_upon)),
        bid_lots-append watching bids
            ∙ (ap (λ (l : List SaleArtwork). l ++ bid_lots bids)
                  (bid_lots-watched own ids sale (watched_only sale watched ids))
                ∙ bid_lots-bid own ids sale bid_upon),
      )
