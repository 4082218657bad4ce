-- ===== src/ArtworksForUser.antt =====
-- Artworks for a user: src/schema/v2/artworksForUser/artworksForUser.ts and helpers.ts beside it.
-- `none` is an exception or a rejected request, unless a comment says otherwise; of an artwork the
-- code reads the id. The text of the request to Vortex is left out, and the arguments that stand in
-- it are those of the loader.
pub mod Combined
mod Tests
use metaphysics.Common.{
  ℕ, ◌+◌, ◌*◌, String, Bool, true, false, not, ◌&&◌, ◌||◌, Option, none, some, List, [], ◌∷◌, ◌++◌,
  map, if◌then◌else◌, ◌==◌, ltb, includes, keep, take, drop, length, is_some, is_truthy, or_else,
  or_text, uniq_by, get_elem?, ◌>>=◌,
}

-- The arguments with the page, the size and the offset that are made of them.
pub record Args : Type 0 where
  pub page : ℕ
  pub size : ℕ
  pub offset : ℕ
  pub include_backfill : Bool
  pub user_id : Option String
  pub version : Option String
  pub max_works_per_artist : Option ℕ
  pub marketable : Bool
  pub backfill_marketing_collection_id : Option String
  pub only_at_auction : Bool
  pub exclude_disliked_artworks : Bool
  pub exclude_artwork_ids : List String

-- What the rail of Gravity answers: ids, or an error with its status.
pub data Rail : Type 0 where
  recommended : Option (List String) → Rail
  refused : Option ℕ → Rail

-- The loaders and the context. A loader of a logged-in user may be missing; `rail` takes a user and
-- the works of an artist at most, the auction lots' loaders a page, a size and a user, and Vortex a
-- user, a version and the works of an artist at most.
pub record Context (A : Type 0) : Type 0 where
  pub user_id : Option String
  pub x_impersonate_user_id : Option String
  pub is_rail_enabled : Option String → Bool
  pub rail : Option (Option String → Option ℕ → Rail)
  pub auction_lots_authenticated : Option (ℕ → ℕ → Option String → Option (List String))
  pub auction_lots_unauthenticated : ℕ → ℕ → Option String → Option (List String)
  pub vortex_authenticated :
      Option (Option String → Option String → Option ℕ → Option (List String))
  pub vortex_unauthenticated : Option String → Option String → Option ℕ → Option (List String)
  pub artworks : List String → ℕ → ℕ → Bool → Bool → Option (List A)
  pub filter_authenticated : Option (ℕ → Bool → String → Option (List A))
  pub filter_unauthenticated : Option (ℕ → Bool → String → Option (List A))
  pub sets : Option (List String)
  pub set_items : String → Bool → Option (Option (List A))

-- A value that is truthy, or nothing.
abbrev pub truthy_text : Option String → Option String
truthy_text text = if is_truthy text then text else none

abbrev pub truthy_number : Option ℕ → Option ℕ
truthy_number none = none
truthy_number (some n) = if n == 0 then none else some n

abbrev pub rail_ids : Rail → Option (List String)
rail_ids (recommended ids) = some (or_else ids [])
rail_ids (refused none) = none
rail_ids (refused (some status)) = if status == 404 then some [] else none

-- Backfill: the artworks, and their count, none if it is undefined.
pub record Backfill (A : Type 0) : Type 0 where
  pub artworks : List A
  pub total_count : Option ℕ

abbrev pub no_backfill : {A : Type 0} → Backfill A
no_backfill = record { artworks = []; total_count = some 0 }

module _ {A : Type 0} (context : Context A) where
  unfoldable pub auction_ids : Args → Option (List String)
  auction_ids args = elim context.auction_lots_authenticated [
    | none ↦ none
    | some authenticated ↦
        let user = or_text args.user_id context.x_impersonate_user_id in
        let size = args.size + length args.exclude_artwork_ids in
        if is_truthy user
        then context.auction_lots_unauthenticated args.page size user
        else authenticated args.page size user
  ]

  unfoldable pub vortex_ids : Args → Option String → Option (List String)
  vortex_ids args user = elim context.vortex_authenticated [
    | none ↦ none
    | some authenticated ↦
        let version = truthy_text args.version in
        let works = truthy_number args.max_works_per_artist in
        if is_truthy context.x_impersonate_user_id
        then context.vortex_unauthenticated (truthy_text user) version works
        else authenticated (truthy_text user) version works
  ]

  unfoldable pub get_new_for_you_artwork_ids : Args → Option (List String)
  unfolding auction_ids vortex_ids
  get_new_for_you_artwork_ids args =
      let user = or_text args.user_id context.x_impersonate_user_id in
      let uses_rail =
        not (is_truthy context.x_impersonate_user_id)
        && context.is_rail_enabled (or_text user context.user_id) in
      let from_vortex = vortex_ids args user in
      if args.only_at_auction then auction_ids args else elim context.rail [
        | none ↦ from_vortex
        | some rail ↦
            if uses_rail
            then rail_ids (rail (truthy_text user) (truthy_number args.max_works_per_artist))
            else from_vortex
      ]

  unfoldable pub get_new_for_you_artworks : Args → List String → Option (List A)
  get_new_for_you_artworks args [] = some []
  get_new_for_you_artworks args (id ∷ ids) =
      context.artworks (id ∷ ids) args.offset args.size args.marketable
        args.exclude_disliked_artworks

  abbrev pub set_backfill : Args → Option (List String) → Option (Backfill A)
  set_backfill args none = none
  set_backfill args (some []) = some no_backfill
  set_backfill args (some (id ∷ ids)) =
      context.set_items id args.exclude_disliked_artworks >>= λ items. some (record {
        artworks = take args.size (or_else items []);
        total_count = elim items [ none ↦ none | some artworks ↦ some (length artworks) ];
      })

  -- The backfill of a filter, where its loader is there, or of a set.
  unfoldable pub filled : Args → Option (Backfill A)
  filled args =
      let loader =
        if args.exclude_disliked_artworks
        then context.filter_authenticated
        else context.filter_unauthenticated in
      let collection = args.backfill_marketing_collection_id in
      let from_set = set_backfill args context.sets in
      if args.only_at_auction || is_truthy collection
      then elim loader [
        | none ↦ from_set
        | some filter ↦
            filter args.size args.exclude_disliked_artworks
              (if is_truthy collection then or_else collection "" else "top-auction-lots")
            >>= λ hits. some (record { artworks = hits; total_count = some (length hits) })
      ]
      else from_set

  unfoldable pub get_backfill_artworks : Args → Option (Backfill A)
  unfolding filled
  get_backfill_artworks args =
      let rest = filled args in
      if not args.include_backfill || ltb args.size 1
      then some no_backfill
      else if is_truthy args.backfill_marketing_collection_id && args.only_at_auction
      then none
      else rest

-- The ids that are not excluded, and those of the page.
unfoldable pub filtered_artwork_ids : Args → List String → List String
filtered_artwork_ids args ids =
    keep (λ (id : String). not (includes args.exclude_artwork_ids id)) ids

unfoldable pub sliced_artwork_ids : Args → List String → List String
unfolding filtered_artwork_ids
sliced_artwork_ids args ids = take args.size (drop args.offset (filtered_artwork_ids args ids))

-- `uniqBy(newForYouArtworks.concat(backfillArtworks), "id").slice(0, size)`
unfoldable pub combined_artworks : {A : Type 0} → (A → String) → ℕ → List A → List A → List A
combined_artworks id size new_for_you backfill = take size (uniq_by id [] (new_for_you ++ backfill))

-- The artworks of the connection and its count; the edges and cursors are made of them.
pub record Found (A : Type 0) : Type 0 where
  pub artworks : List A
  pub total_count : ℕ

unfoldable pub found_artworks : {A : Type 0} → (A → String) → Context A → Args → Option (Found A)
unfolding get_new_for_you_artwork_ids get_new_for_you_artworks get_backfill_artworks
    filtered_artwork_ids sliced_artwork_ids combined_artworks
found_artworks id context args = do
  ids ← get_new_for_you_artwork_ids context args
  new_for_you ← get_new_for_you_artworks context args (sliced_artwork_ids args ids)
  backfill ← get_backfill_artworks context args
  some (record {
    artworks = combined_artworks id args.size new_for_you backfill.artworks;
    total_count = length (filtered_artwork_ids args ids) + or_else backfill.total_count 0;
  })

-- A collection for the backfill without backfill is an exception.
unfoldable pub artworks_for_user : {A : Type 0} → (A → String) → Context A → Args → Option (Found A)
unfolding found_artworks
artworks_for_user id context args =
    let found = found_artworks id context args in
    if is_truthy args.backfill_marketing_collection_id && not args.include_backfill
    then none
    else found
