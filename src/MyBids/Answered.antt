-- ===== src/MyBids/Answered.antt =====
-- What the resolver of a user's bids answers when all requests are answered.
use mathlib.Core.List.{Perm}
use metaphysics.Common.{includes, ℕ, String, not, some, true, List, ◌++◌, Distinct, All, ◌≡◌}
use metaphysics.Common.Uniq.{keys_by}
use metaphysics.MyBids.{GravityLotStanding, LotStanding, Sale, SaleArtwork, MyBid, SortedBids}
use metaphysics.MyBids.Divided.{sales_of, IsPruned}
use metaphysics.MyBids.Asked.{is_of_user}
use metaphysics.MyBids.Resolver.{Services}

-- What the services tell of a user.
pub record Told (services : Services) : Type 0 where
  pub me : String
  pub from_causality : List LotStanding
  pub from_gravity : List GravityLotStanding
  pub registered : List Sale
  pub watched : List SaleArtwork
  pub is_me : services.me ≡ some me
  pub is_causality : services.causality me ≡ some from_causality
  pub is_gravity : services.lot_standings ≡ some from_gravity
  pub is_registered : services.registered_sales ≡ some registered
  pub is_watched : services.watched_sale_artworks ≡ some watched

-- Each sale of the user is there by its slug.
abbrev pub HasSales : (services : Services) → Told services → List Sale → Type 0
HasSales services told sales =
    (id : String) (sale : Sale)
    → is_of_user told.from_causality told.from_gravity told.registered told.watched id ≡ true
    → services.sale id ≡ some sale
    → includes (keys_by (λ (s : Sale). s.id) sales) sale.id ≡ true

-- A sale is what is loaded for the id of a sale of the user.
abbrev pub IsLoaded : (services : Services) → Told services → Sale → Type 0
IsLoaded services told sale =
    (id : String) × (is_of_user told.from_causality told.from_gravity told.registered told.watched
        id
      ≡ true)
    × (services.sale id ≡ some sale)

-- The two lists together are the sales of the user, of which no two have the same slug; no active sale
-- is closed, and the closed ones are pruned.
abbrev pub DividesSales : (services : Services) → Told services → SortedBids → Type 0
DividesSales services told bids =
    (sales : List Sale) × HasSales services told sales
    × All (IsLoaded services told) sales
    × Distinct (keys_by (λ (s : Sale). s.id) sales)
    × Perm (sales_of bids.active ++ sales_of bids.closed) sales
    × All (λ (b : MyBid). not b.is_closed ≡ true) bids.active
    × All IsPruned bids.closed

-- The requests for single sales and their lots are answered.
abbrev pub Answers : Services → Type 0
Answers services =
    ((id : String) → (sale : Sale) × (services.sale id ≡ some sale))
    × ((id : String) (ids : List String) (size : ℕ)
        → (artworks : List SaleArtwork) × (services.sale_artworks id ids size ≡ some artworks))
