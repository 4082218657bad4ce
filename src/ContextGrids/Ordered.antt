-- ===== src/ContextGrids/Ordered.antt =====
-- The order of the grids and when they are there.
use metaphysics.Common.{
  ap, ◌∙◌, ◌≢◌, String, any, ◌==◌, Option-cases, not, ℕ, suc, ◌<◌, Bool, false, Option, none, some,
  List, [], ◌∷◌, ◌≡◌, ◌⊎◌, inl, inr, refl, Bool-cases,
}
use mathlib.Core.Option
use mathlib.Core.Option.{some-injective, none-ne-some}
use metaphysics.ContextGrids.{
  sale_promise, first, auction_context, sale_context, context, show_context, choose, fair_context,
  context_of_sale, context, show_context, Artwork, Sale, Fair, Show, Loaders, Grid,
  artist_artwork_grid, related_artwork_grid, auction_artwork_grid, show_artwork_grid,
  partner_artwork_grid, show_grids, artwork_context_grids, auction_of, is_closed,
  fair_with_full_feature, show_of,
}

-- Where a grid stands.
abbrev pub rank : Grid → ℕ
rank (auction_artwork_grid sale) = 0
rank (show_artwork_grid show at_a_fair) = 1
rank (artist_artwork_grid artist) = 2
rank (partner_artwork_grid partner) = 3
rank related_artwork_grid = 4

-- A list of grids whose ranks are above a number and increase.
abbrev pub IsRanked : ℕ → List Grid → Type 0
IsRanked n [] = Unit
IsRanked n (g ∷ gs) = (n < suc (rank g)) × IsRanked (suc (rank g)) gs

abbrev pub is_related_grid : Grid → Bool
is_related_grid grid = rank grid == 4

abbrev pub is_artist_grid : Grid → Bool
is_artist_grid grid = rank grid == 2

-- Ranked, and with or without the related works and the artist's.
abbrev pub IsArranged : Bool → Bool → List Grid → Type 0
IsArranged related artist grids =
    IsRanked 0 grids × (any is_related_grid grids ≡ related) × (any is_artist_grid grids ≡ artist)

-- Whatever is answered satisfies the predicate.
abbrev pub IfAnswered : {A : Type 0} → (A → Type 0) → Option A → Type 0
IfAnswered P none = Unit
IfAnswered P (some a) = P a

-- The work is a lot of an auction that is not closed, for what is loaded.
abbrev pub is_open_lot : Option (Option Sale) → Bool
is_open_lot none = false
is_open_lot (some none) = false
is_open_lot (some (some sale)) = not (is_closed sale)

auction_context≢show :
    {sale : Sale} {show : Show} → some (auction_context sale) ≢ some (show_context show)
auction_context≢show e = cc

sale_context≢show :
    {sale : Sale} {show : Show} → some (sale_context sale) ≢ some (show_context show)
sale_context≢show e = cc

chosen_show :
    (sale : Option Sale) (fair : Option Fair) (found show : Option Show)
    → choose (
        Option.map context_of_sale sale
        ∷ Option.map fair_context fair
        ∷ Option.map show_context found
        ∷ [])
      ≡ Option.map show_context show
    → (fair ≡ none) × (found ≡ show)
chosen_show none none none none e = (refl, refl)
chosen_show none none none (some show) e = cc
chosen_show none none (some found) none e = cc
chosen_show none none (some found) (some show) e = (refl, cc)
chosen_show none (some fair) found none e = cc
chosen_show none (some fair) found (some show) e = cc
chosen_show (some sale) fair found none e = cc
chosen_show (some sale) fair found (some show) e = elim (Bool-cases sale.is_auction) [
  | inl a ↦ absurd (auction_context≢show (rw a at e))
  | inr a ↦ absurd (sale_context≢show (rw a at e))
]

sale_promise_shape :
    (loaders : Loaders) (ids : Option (List String))
    → (sale_promise loaders ids ≡ none)
      ⊎ ((sale : Option Sale) × (sale_promise loaders ids ≡ some (Option.map context_of_sale sale)))
sale_promise_shape loaders none = inr (none, refl)
sale_promise_shape loaders (some []) = inr (none, refl)
sale_promise_shape loaders (some (id ∷ ids)) = elim (Option-cases (loaders.sales (id ∷ ids))) [
  | inl e ↦ inl (rw e refl)
  | inr (sales, e) ↦ inr (first sales, rw e refl)
]

-- The requests of the context are answered, and a show is chosen only if there is no fair.
answered_context :
    (loaders : Loaders) (artwork : Artwork) (show : Option Show)
    → context loaders artwork ≡ some (Option.map show_context show)
    → (fair_with_full_feature loaders artwork ≡ some none)
      × (show_of loaders false artwork.show_ids ≡ some show)
unfolding context
answered_context loaders artwork show e = elim (sale_promise_shape loaders artwork.sale_ids) [
  | inl s ↦ absurd (none-ne-some _ (rw s at e))
  | inr (sale, s) ↦ elim (Option-cases (fair_with_full_feature loaders artwork)) [
    | inl f ↦ absurd (none-ne-some _ (rw (s, f) at e))
    | inr (fair, f) ↦ elim (Option-cases (show_of loaders false artwork.show_ids)) [
      | inl g ↦ absurd (none-ne-some _ (rw (s, f, g) at e))
      | inr (found, g) ↦
          let (no_fair, same) =
            chosen_show sale fair found show (some-injective _ _ (rw (s, f, g) at e)) in
          (f ∙ ap some no_fair, g ∙ ap some same)
    ]
  ]
]

-- Of a work whose first sale is not an auction and whose context is a show, or nothing, the grids
-- are those of that show, which is not at a fair, or those without a show.
pub artwork_context_grids-context :
    (loaders : Loaders) (artwork : Artwork) (related : Bool) (show : Option Show)
    → auction_of loaders artwork.sale_ids ≡ some none
    → context loaders artwork ≡ some (Option.map show_context show)
    → artwork_context_grids loaders artwork related ≡ some (show_grids artwork related show)
unfolding artwork_context_grids context
artwork_context_grids-context loaders artwork related show a e =
    let (no_fair, found) = answered_context loaders artwork show e in rw (a, no_fair, found) refl
