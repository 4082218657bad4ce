-- ===== src/SaleArtworks/Requests.antt =====
-- The requests of a batch: one to a sale, with each of its artworks once.
use metaphysics.Common.{
  Distinct, String, Bool, true, false, ◌||◌, List, [], ◌∷◌, ◌++◌, if◌then◌else◌, str_eq, eq_iff,
  includes, any, ◌≡◌, refl, arith, Bool-cases, inl, inr, All,
}
use metaphysics.SaleArtworks.{
  SaleArtworkKey, SaleGroup, with_artwork, add_key, add_keys, group_by_params,
}

abbrev pub has_sale : String → List SaleGroup → Bool
has_sale sale_id groups = any (λ (g : SaleGroup). str_eq g.sale_id sale_id) groups

-- One request to a sale, and in each request an artwork once.
abbrev pub OneEach : List SaleGroup → Type 0
OneEach [] = Unit
OneEach (g ∷ groups) = (has_sale g.sale_id groups ≡ false) × Distinct g.artwork_ids × OneEach groups

-- The ids that are asked of a sale.
abbrev pub ids_at : String → List SaleGroup → List String
ids_at sale_id [] = []
ids_at sale_id (g ∷ groups) =
    if str_eq g.sale_id sale_id then g.artwork_ids else ids_at sale_id groups

includes-snoc :
    (xs : List String) (y x : String) → includes (xs ++ (y ∷ [])) x ≡ includes xs x || str_eq y x
includes-snoc [] y x = ground arith
includes-snoc (z ∷ xs) y x = ground (arith, includes-snoc xs y x)

Distinct-snoc :
    (xs : List String) (y : String)
    → Distinct xs
    → includes xs y ≡ false
    → Distinct (xs ++ (y ∷ []))
Distinct-snoc [] y d h = (refl, tt)
Distinct-snoc (x ∷ xs) y (a, d) h = (
  ground (arith, includes-snoc xs y x, eq_iff x y, eq_iff y x),
  Distinct-snoc xs y d (ground arith),
)

with_artwork-Distinct :
    (a : String) (ids : List String) → Distinct ids → Distinct (with_artwork a ids)
with_artwork-Distinct a ids d = elim (Bool-cases (includes ids a)) [
  | inl e ↦ rw e d
  | inr e ↦ rw e (Distinct-snoc ids a d e)
]

pub with_artwork-includes :
    (a b : String) (ids : List String)
    → includes (with_artwork a ids) b ≡ includes ids b || str_eq a b
with_artwork-includes a b ids = ground (arith, includes-snoc ids a b, eq_iff a b)

has_sale-add :
    (s : String) (key : SaleArtworkKey) (groups : List SaleGroup)
    → has_sale s (add_key key groups) ≡ has_sale s groups || str_eq key.sale_id s
has_sale-add s key [] = ground arith
has_sale-add s key (g ∷ groups) = ground (
  arith,
  has_sale-add s key groups,
  eq_iff g.sale_id key.sale_id,
  eq_iff g.sale_id s,
  eq_iff key.sale_id s,
)

add_key-OneEach :
    (key : SaleArtworkKey) (groups : List SaleGroup) → OneEach groups → OneEach (add_key key groups)
add_key-OneEach key [] h = (refl, (refl, tt), tt)
add_key-OneEach key (g ∷ groups) (a, d, h) = elim (Bool-cases (str_eq g.sale_id key.sale_id)) [
  | inl e ↦ rw e (a, with_artwork-Distinct key.artwork_id g.artwork_ids d, h)
  | inr e ↦ rw e (
    ground (
      arith,
      has_sale-add g.sale_id key groups,
      eq_iff g.sale_id key.sale_id,
      eq_iff key.sale_id g.sale_id,
    ),
    d,
    add_key-OneEach key groups h,
  )
]

add_keys-OneEach :
    (groups : List SaleGroup) (keys : List SaleArtworkKey)
    → OneEach groups
    → OneEach (add_keys groups keys)
add_keys-OneEach groups [] h = h
add_keys-OneEach groups (key ∷ keys) h =
    add_keys-OneEach (add_key key groups) keys (add_key-OneEach key groups h)

-- An artwork is asked of its sale.
abbrev pub is_asked : SaleArtworkKey → List SaleGroup → Bool
is_asked key groups = includes (ids_at key.sale_id groups) key.artwork_id

add_key-asked :
    (key other : SaleArtworkKey) (groups : List SaleGroup)
    → is_asked other (add_key key groups)
      ≡ is_asked other groups
        || (if str_eq key.sale_id other.sale_id
            then str_eq key.artwork_id other.artwork_id
            else false)
add_key-asked key other [] = ground arith
add_key-asked key other (g ∷ groups) = ground (
  arith,
  add_key-asked key other groups,
  eq_iff g.sale_id key.sale_id,
  eq_iff g.sale_id other.sale_id,
  eq_iff key.sale_id other.sale_id,
  with_artwork-includes key.artwork_id other.artwork_id g.artwork_ids,
)

-- What is asked stays asked, and every key is asked.
add_keys-asked_still :
    (groups : List SaleGroup) (keys : List SaleArtworkKey) (key : SaleArtworkKey)
    → is_asked key groups ≡ true
    → is_asked key (add_keys groups keys) ≡ true
add_keys-asked_still groups [] key h = h
add_keys-asked_still groups (k ∷ keys) key h =
    add_keys-asked_still (add_key k groups) keys key (ground (arith, add_key-asked k key groups))

pub add_keys-asked :
    (groups : List SaleGroup) (keys : List SaleArtworkKey)
    → All (λ (key : SaleArtworkKey). is_asked key (add_keys groups keys) ≡ true) keys
add_keys-asked groups [] = tt
add_keys-asked groups (key ∷ keys) = (
  add_keys-asked_still (add_key key groups) keys key (
      ground (
        arith,
        add_key-asked key key groups,
        eq_iff key.sale_id key.sale_id,
        eq_iff key.artwork_id key.artwork_id,
      )),
  add_keys-asked (add_key key groups) keys,
)

-- The requests of a batch: no sale is asked twice, no artwork twice in one request, and each key's
-- artwork is asked of its sale.
pub group_by_params-OneEach :
    (keys : List SaleArtworkKey)
    → OneEach (group_by_params keys)
      × All (λ (key : SaleArtworkKey). is_asked key (group_by_params keys) ≡ true) keys
unfolding group_by_params
group_by_params-OneEach keys = (add_keys-OneEach [] keys tt, add_keys-asked [] keys)
