-- ===== src/MyBids/Divided.antt =====
-- The sales of a user are divided into active and closed ones.
use mathlib.Core.List.{Perm, map-append}
use mathlib.Core.List.Perm
use mathlib.Core.Path.{subst}
use metaphysics.Common.{true, not, List, [], ◌∷◌, ◌++◌, map, keep, is_some, All, ◌≡◌, refl, sym, ap}
use metaphysics.Common.Kept.{keep-All, keep-both}
use metaphysics.Common.Sort.{sort_by, sort_by-perm}
use metaphysics.MyBids.{
  MyBid, Sale, SaleArtworkWithPosition, Clock, sort_lots, prune_watched, sort_sales,
}

-- The sales of bids; sorting and pruning their lots leaves them.
abbrev pub sales_of : List MyBid → List Sale
sales_of bids = map (λ (b : MyBid). b.sale) bids

sales_of-sort_lots : (bids : List MyBid) → sales_of (map sort_lots bids) ≡ sales_of bids
unfolding sort_lots
sales_of-sort_lots [] = refl
sales_of-sort_lots (b ∷ bids) = ap (λ (l : List Sale). b.sale ∷ l) (sales_of-sort_lots bids)

sales_of-prune_watched : (bids : List MyBid) → sales_of (map prune_watched bids) ≡ sales_of bids
sales_of-prune_watched [] = refl
sales_of-prune_watched (b ∷ bids) = ap (λ (l : List Sale). b.sale ∷ l) (sales_of-prune_watched bids)

-- A closed sale whose lots all have a standing of the user.
abbrev pub IsPruned : MyBid → Type 0
IsPruned b =
    (b.is_closed ≡ true)
    × All (λ (a : SaleArtworkWithPosition). is_some a.lot_state ≡ true) b.sale_artworks

prune_watched-IsPruned :
    (bids : List MyBid)
    → All (λ (b : MyBid). b.is_closed ≡ true) bids
    → All IsPruned (map prune_watched bids)
prune_watched-IsPruned [] h = tt
prune_watched-IsPruned (b ∷ bids) (e, h) = (
  (e, keep-All (λ (a : SaleArtworkWithPosition). is_some a.lot_state) b.sale_artworks),
  prune_watched-IsPruned bids h,
)

-- The sorted bids: each of the given sales is in exactly one of the two lists, as often as it is
-- given; no active one is closed; and the closed ones are closed and show only lots that the user
-- has a standing in.
pub sort_sales-divides :
    (clock : Clock) (bids : List MyBid)
    → Perm
        (sales_of (sort_sales clock bids).active ++ sales_of (sort_sales clock bids).closed)
        (sales_of bids)
      × All (λ (b : MyBid). not b.is_closed ≡ true) (sort_sales clock bids).active
      × All IsPruned (sort_sales clock bids).closed
unfolding sort_sales
sort_sales-divides clock bids =
    let sorted = map sort_lots (sort_by (λ (b : MyBid). clock.unix b.end_at) bids) in
    (
      subst
          (λ (l : List Sale).
            Perm (sales_of (keep (λ (b : MyBid). not b.is_closed) sorted) ++ l) (sales_of bids))
          (sym (sales_of-prune_watched (keep (λ (b : MyBid). b.is_closed) sorted)))
          (subst (λ (l : List Sale). Perm l (sales_of bids)) (map-append _ _ _)
            (Perm.trans
              (Perm.map (λ (b : MyBid). b.sale) (keep-both (λ (b : MyBid). b.is_closed) sorted))
              (subst (λ (l : List Sale). Perm l (sales_of bids))
                (sym (sales_of-sort_lots (sort_by (λ (b : MyBid). clock.unix b.end_at) bids)))
                (Perm.map (λ (b : MyBid). b.sale)
                  (sort_by-perm (λ (b : MyBid). clock.unix b.end_at) bids))))),
      keep-All (λ (b : MyBid). not b.is_closed) sorted,
      prune_watched-IsPruned (keep (λ (b : MyBid). b.is_closed) sorted)
          (keep-All (λ (b : MyBid). b.is_closed) sorted),
    )
