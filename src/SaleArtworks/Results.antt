-- ===== src/SaleArtworks/Results.antt =====
-- Each key of a batch gets the sale artwork of its sale, also where other requests fail.
use mathlib.Core.Path.{subst}
use mathlib.Core.Option
use metaphysics.Common.{
  String, true, false, Option, none, some, List, [], ◌∷◌, map, str_eq, eq_iff, includes, ◌≡◌, refl,
  sym, ap, ◌∙◌, arith, Bool-cases, inl, inr, All, length, find, ◌⊎◌,
}
use metaphysics.SaleArtworks.{
  SaleArtworkKey, SaleGroup, SaleArtwork, Loader, Fetched, fetch, sale_data_of, artwork_in,
  group_by_params, load_batch,
}
use metaphysics.SaleArtworks.Requests.{has_sale, OneEach, ids_at, is_asked, group_by_params-OneEach}

module _ {R : Type 0} (loader : Loader R) where
  abbrev answer_of : String → List String → Option (List (SaleArtwork R))
  answer_of sale_id ids = loader sale_id ids (length ids)

  own_entry :
      (s id : String) (o : Option (List (SaleArtwork R))) (fetched : Fetched R)
      → str_eq id s ≡ true
      → sale_data_of s fetched ≡ none
      → sale_data_of s (Option.map (λ sale_data. (id, sale_data)) o ∷ fetched) ≡ o
  own_entry s id none fetched e h = h
  own_entry s id (some data_found) fetched e h = rw e refl

  other_entry :
      (s id : String) (o : Option (List (SaleArtwork R))) (fetched : Fetched R)
      → str_eq id s ≡ false
      → sale_data_of s (Option.map (λ sale_data. (id, sale_data)) o ∷ fetched)
        ≡ sale_data_of s fetched
  other_entry s id none fetched e = refl
  other_entry s id (some data_found) fetched e = rw e refl

  fetched-absent :
      (s : String) (groups : List SaleGroup)
      → has_sale s groups ≡ false
      → sale_data_of s (map (fetch loader) groups) ≡ none
  fetched-absent s [] h = refl
  fetched-absent s (g ∷ groups) h =
      other_entry s g.sale_id (answer_of g.sale_id g.artwork_ids) (map (fetch loader) groups)
        (ground arith)
      ∙ fetched-absent s groups (ground arith)

  -- What is found for a sale that is asked is the answer to its request, or nothing if it failed.
  fetched-answer :
      (s : String) (groups : List SaleGroup)
      → OneEach groups
      → has_sale s groups ≡ true
      → sale_data_of s (map (fetch loader) groups) ≡ answer_of s (ids_at s groups)
  fetched-answer s [] o h = cc
  fetched-answer s (g ∷ groups) (a, d, o) h = elim (Bool-cases (str_eq g.sale_id s)) [
    | inl e ↦
        (let same = (eq_iff g.sale_id s).0 e in
          own_entry s g.sale_id (answer_of g.sale_id g.artwork_ids) (map (fetch loader) groups) e
            (fetched-absent s groups (ap (λ (t : String). has_sale t groups) (sym same) ∙ a))
          ∙ (ap (λ (t : String). answer_of t g.artwork_ids) same ∙ rw e refl))
    | inr e ↦
        other_entry s g.sale_id (answer_of g.sale_id g.artwork_ids) (map (fetch loader) groups) e
        ∙ (fetched-answer s groups o (rw e at h) ∙ rw e refl)
  ]

asked_has_sale :
    (key : SaleArtworkKey) (groups : List SaleGroup)
    → is_asked key groups ≡ true
    → has_sale key.sale_id groups ≡ true
asked_has_sale key [] h = h
asked_has_sale key (g ∷ groups) h = ground (arith, asked_has_sale key groups)

-- A datum stands in a list.
abbrev pub IsIn : {R : Type 0} → SaleArtwork R → List (SaleArtwork R) → Type 0
IsIn datum [] = ⊥
IsIn datum (d ∷ ds) = (d ≡ datum) ⊎ IsIn datum ds

-- A request of a batch.
abbrev pub IsRequest : SaleGroup → List SaleGroup → Type 0
IsRequest request [] = ⊥
IsRequest request (g ∷ groups) = (g ≡ request) ⊎ IsRequest request groups

-- What a key gets of the answer to the request of its sale: nothing if that fails; otherwise a sale
-- artwork of the answer with the artwork's id, or nothing if the answer has none.
abbrev pub IsAnswer :
    {R : Type 0} → SaleArtworkKey → Option (List (SaleArtwork R)) → Option (SaleArtwork R) → Type 0
IsAnswer key none none = Unit {0}
IsAnswer key none (some datum) = ⊥
IsAnswer key (some sale_data) none =
    All (λ (d : SaleArtwork _). str_eq d.artwork_id key.artwork_id ≡ false) sale_data
IsAnswer key (some sale_data) (some datum) =
    (datum.artwork_id ≡ key.artwork_id) × IsIn datum sale_data

-- Each key with the result at its place: some request for its sale asks for its artwork, and the
-- result is what the key gets of the answer to it.
abbrev pub EachAnswered :
    {R : Type 0}
    → Loader R
    → List SaleGroup
    → List SaleArtworkKey
    → List (Option (SaleArtwork R))
    → Type 0
EachAnswered loader requests [] [] = Unit {0}
EachAnswered loader requests (key ∷ keys) (result ∷ results) =
    ((ids : List String) × IsRequest (record { sale_id = key.sale_id; artwork_ids = ids }) requests
      × (includes ids key.artwork_id ≡ true)
      × IsAnswer key (loader key.sale_id ids (length ids)) result)
    × EachAnswered loader requests keys results
EachAnswered loader requests _ _ = ⊥

artwork_in-IsAnswer :
    {R : Type 0} (key : SaleArtworkKey) (o : Option (List (SaleArtwork R)))
    → IsAnswer key o (artwork_in key.artwork_id o)
artwork_in-IsAnswer key none = tt
artwork_in-IsAnswer key (some []) = tt
artwork_in-IsAnswer {R} key (some (d ∷ ds)) =
    elim (Bool-cases (str_eq d.artwork_id key.artwork_id)) [
      | inl e ↦ rw e ((eq_iff d.artwork_id key.artwork_id).0 e, inl refl)
      | inr e ↦ rw e (
          later (find (λ (x : SaleArtwork R). str_eq x.artwork_id key.artwork_id) ds) e
            (artwork_in-IsAnswer key (some ds)))
    ]
  where
    later :
        (o : Option (SaleArtwork R))
        → str_eq d.artwork_id key.artwork_id ≡ false
        → IsAnswer key (some ds) o
        → IsAnswer key (some (d ∷ ds)) o
    later none e h = (e, h)
    later (some x) e h = (h.0, inr h.1)

ids_at-IsRequest :
    (sale_id : String) (groups : List SaleGroup)
    → has_sale sale_id groups ≡ true
    → IsRequest (record { sale_id = sale_id; artwork_ids = ids_at sale_id groups }) groups
ids_at-IsRequest sale_id [] h = cc
ids_at-IsRequest sale_id (g ∷ groups) h = elim (Bool-cases (str_eq g.sale_id sale_id)) [
  | inl e ↦
      let same : ids_at sale_id (g ∷ groups) ≡ g.artwork_ids = rw e refl in
      inl (λ i. record { sale_id = (eq_iff g.sale_id sale_id).0 e i; artwork_ids = sym same i })
  | inr e ↦
      let same : ids_at sale_id (g ∷ groups) ≡ ids_at sale_id groups = rw e refl in
      subst
        (λ (ids : List String).
          IsRequest (record { sale_id = sale_id; artwork_ids = ids }) (g ∷ groups))
        (sym same) (inr (ids_at-IsRequest sale_id groups (rw e at h)))
]

module _ {R : Type 0} (loader : Loader R) where
  results_lem :
      (groups : List SaleGroup) (keys : List SaleArtworkKey)
      → OneEach groups
      → All (λ (key : SaleArtworkKey). is_asked key groups ≡ true) keys
      → EachAnswered loader groups keys (
          map
            (λ (key : SaleArtworkKey).
              artwork_in key.artwork_id (sale_data_of key.sale_id (map (fetch loader) groups)))
            keys)
  results_lem groups [] o h = tt
  results_lem groups (key ∷ keys) o (h, hs) =
      let has = asked_has_sale key groups h in
      let ids = ids_at key.sale_id groups in
      (
        (
          ids,
          ids_at-IsRequest key.sale_id groups has,
          h,
          rw (fetched-answer loader key.sale_id groups o has)
              (artwork_in-IsAnswer key (loader key.sale_id ids (length ids))),
        ),
        results_lem groups keys o hs,
      )

  -- Whatever the loader answers, or fails to: each key of a batch gets, at its place, what the answer to
  -- the request of its sale has for its artwork, a sale artwork of that id, or nothing where there is
  -- none or the request failed; and that request asks for its artwork.
  pub load_batch-answered :
      (keys : List SaleArtworkKey)
      → EachAnswered loader (group_by_params keys) keys (load_batch loader keys)
  unfolding load_batch
  load_batch-answered keys =
      let requests = group_by_params-OneEach keys in
      results_lem (group_by_params keys) keys requests.0 requests.1
