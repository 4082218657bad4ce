-- ===== src/CollectorSignals/Lots.antt =====
-- What the signals of an auction say of a lot.
use mathlib.Core.Option
use mathlib.Core.Path.{subst}
use mathlib.Core.Option.{some-injective, none-ne-some}
use metaphysics.Common.{
  String, Bool, true, false, Option, none, some, List, [], ◌≡◌, refl, sym, ap, ◌∙◌, inl, inr,
  Bool-cases, is_truthy, or_else, ◌>>=◌,
}
use metaphysics.CollectorSignals.{
  unless_ended, with_sale, lot_end, sale_end, lot_of_first, auction_signals, Artwork, Sale,
  SaleArtwork, LabelSignal, Loaders, AuctionSignals, is_auction_artwork, first, unless_ended,
  active_lot, get_increased_interest, get_primary_label, get_active_auction_values,
  auction_collector_signals,
}

-- The lot and its sale have not ended, and a sale that is held live gives its lot no time of closing.
abbrev pub IsActive : AuctionSignals → Type 0
IsActive signals =
    (is_truthy signals.sale.ended_at ≡ false)
    × (is_truthy signals.sale_artwork.ended_at ≡ false)
    × (is_truthy signals.sale.live_start_at ≡ true → signals.lot_closes_at ≡ none)

module _ {A B : Type 0} where
  bind-inv :
      (o : Option A) (f : A → Option B) (b : B)
      → (o >>= f) ≡ some b
      → (a : A) × (o ≡ some a) × (f a ≡ some b)
  bind-inv none f b e = absurd (none-ne-some _ e)
  bind-inv (some a) f b e = (a, refl, e)

  map-inv :
      (f : A → B) (o : Option A) (b : B)
      → Option.map f o ≡ some b
      → (a : A) × (o ≡ some a) × (f a ≡ b)
  map-inv f none b e = absurd (none-ne-some _ e)
  map-inv f (some a) b e = (a, refl, some-injective _ _ e)

unless_ended-inv :
    {A : Type 0} (ended_at : A → Option String) (o : Option A) (a : A)
    → unless_ended ended_at o ≡ some a
    → is_truthy (ended_at a) ≡ false
unless_ended-inv ended_at none a e = absurd (none-ne-some _ e)
unless_ended-inv ended_at (some found) a e = elim (Bool-cases (is_truthy (ended_at found))) [
  | inl t ↦ absurd (none-ne-some _ (rw t at e))
  | inr t ↦ ap (λ x. is_truthy (ended_at x)) (sym (some-injective _ _ (rw t at e))) ∙ t
]

signals-IsActive :
    (has_passed : String → Bool) (artwork : Artwork) (lot : SaleArtwork) (sale : Sale)
    → is_truthy sale.ended_at ≡ false
    → is_truthy lot.ended_at ≡ false
    → IsActive (auction_signals has_passed artwork (lot, sale))
unfolding auction_signals
signals-IsActive has_passed artwork lot sale s l = (s, l, λ live. rw live refl)

module _ (loaders : Loaders) (artwork : Artwork) where
  active_lot-inv :
      (found : Option Sale) (lot : SaleArtwork) (sale : Sale)
      → active_lot loaders artwork found ≡ some (some (lot, sale))
      → (found ≡ some sale) × (is_truthy lot.ended_at ≡ false)
  active_lot-inv none lot sale e = absurd (none-ne-some _ (some-injective _ _ e))
  active_lot-inv (some other) lot sale e =
      let (loaded, answer, kept) =
        map-inv (with_sale other) (loaders.sale_artwork other.id artwork.mongo_id) _ e in
      let (l, running, same) =
        map-inv {B = SaleArtwork × Sale} (λ (l : SaleArtwork). (l, other))
          (unless_ended lot_end loaded) _ kept in
      (
        ap some (ap (λ (p : SaleArtwork × Sale). p.1) same),
        ap (λ (p : SaleArtwork × Sale). is_truthy p.0.ended_at) (sym same)
            ∙ unless_ended-inv lot_end loaded l running,
      )

  active-inv :
      (lot : SaleArtwork) (sale : Sale)
      → get_active_auction_values loaders artwork ≡ some (some (lot, sale))
      → (is_auction_artwork artwork ≡ true)
        × (is_truthy sale.ended_at ≡ false)
        × (is_truthy lot.ended_at ≡ false)
  unfolding get_active_auction_values
  active-inv lot sale e = elim (Bool-cases (is_auction_artwork artwork)) [
    | inr a ↦ absurd (none-ne-some _ (some-injective _ _ (rw (get_active_auction_values, a) at e)))
    | inl a ↦
        let (sales, answer, kept) =
          bind-inv (loaders.sales (or_else artwork.sale_ids [])) (lot_of_first loaders artwork) _
            (rw (get_active_auction_values, a) at e) in
        let sold = unless_ended sale_end (first (or_else sales [])) in
        let (running, open_lot) = active_lot-inv sold lot sale kept in
        (a, unless_ended-inv sale_end (first (or_else sales [])) sale running, open_lot)
  ]

  -- Of a work that has the signals of an auction, neither the lot nor its sale has ended, and the lot
  -- has no time of closing if the sale is held live; and whatever labels are to be ignored, the
  -- work has no primary label and no increased interest.
  pub auction_collector_signals-IsActive :
      (has_passed : String → Bool) (ignore : Option (List LabelSignal)) (signals : AuctionSignals)
      → auction_collector_signals loaders has_passed artwork ≡ some (some signals)
      → IsActive signals
        × (get_primary_label loaders artwork ignore ≡ some none)
        × (get_increased_interest artwork ≡ false)
  unfolding auction_collector_signals get_primary_label get_increased_interest
  auction_collector_signals-IsActive has_passed ignore signals e =
      let values = get_active_auction_values loaders artwork in
      let (active, answer, made) =
        map-inv (Option.map (auction_signals has_passed artwork)) values _ e in
      let (pair, given, same) = map-inv (auction_signals has_passed artwork) active signals made in
      let (a, sale_open, lot_open) = active-inv pair.0 pair.1 (answer ∙ ap some given) in
      (
        subst IsActive same (signals-IsActive has_passed artwork pair.0 pair.1 sale_open lot_open),
        rw a refl,
        rw a refl,
      )
