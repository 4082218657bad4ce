-- ===== src/Recommendations.antt =====
-- The artworks and artists that are recommended to a user:
-- src/schema/v2/me/artworkRecommendations.ts and src/schema/v2/me/artistRecommendations.ts.
-- `none` is an exception or a rejected request, unless a comment says otherwise. The text of the
-- request to Vortex is left out: its loaders take the user that stands in it.
pub mod Pages
mod Tests
use metaphysics.Common.{
  ℕ, zero, suc, ◌+◌, String, Bool, true, false, not, ◌&&◌, ◌||◌, Option, none, some, List, [], ◌∷◌,
  if◌then◌else◌, str_eq, is_some, is_truthy, or_text, take, drop, length, map, ltb, ◌>>=◌,
}
use mathlib.Core.Option
use metaphysics.Common.Int.{ℤ, pos, negsuc}
use metaphysics.Pagination.{PageCursors, Relay, create_page_cursors, page_number_cap}
use metaphysics.Pagination.Args.{
  ConnectionOptions, GravityArgs, convert_connection_args_to_gravity_args,
}
use metaphysics.Version.{SemanticVersionNumber, get_eigen_version_number, is_at_least_version}
use metaphysics.ArtworksForUser.{Rail, rail_ids}
use metaphysics.Search.{has_next_page}

-- `to_number` is the runtime's `Number`, `variant` the experiment's variant, with whether it is enabled, and `rail` what the loader answers to a request of 50 works.
pub record Context (A : Type 0) : Type 0 where
  pub relay : Relay
  pub get_paging_parameters : ConnectionOptions Unit → Option ℕ × ℕ
  pub artworks : Option (List String → Option (List A))
  pub artists : Option (List String → Option (List A))
  pub vortex_authenticated : Option (Option String → Option (List String))
  pub vortex_unauthenticated : Option (Option String → Option (List String))
  pub rail : Option Rail
  pub suggested_similar_artists : Option (ℕ → Option ℕ → Option (List A))
  pub user_id : Option String
  pub x_impersonate_user_id : Option String
  pub user_agent : Option String
  pub to_number : String → Option ℕ
  pub variant : Option (Bool × String)
  pub is_feature_flag_enabled : String → Option String → Bool

-- The connection: the works of the page, with the length of the whole and the start of the page.
pub record ArtworkRecommendations (A : Type 0) : Type 0 where
  pub artworks : List A
  pub total_count : ℕ
  pub slice_start : ℤ
  pub page_cursors : Option PageCursors
  pub has_previous_page : Bool
  pub has_next_page : Bool

pub record ArtistRecommendations (A : Type 0) : Type 0 where
  pub artists : List A
  pub total_count : ℕ
  pub page_cursors : Option PageCursors

abbrev pub minimum_eigen_version : SemanticVersionNumber
minimum_eigen_version = record { major = some 9; minor = some 11; patch = some 0 }

-- `artworkIds.slice(offset, offset + size)`: an offset is below zero only for the page 0, minus the
-- size, and a missing size gives NaN; either leaves nothing.
unfoldable pub page_artwork_ids : List String → ℤ → Option ℕ → List String
page_artwork_ids ids offset none = []
page_artwork_ids ids (pos k) (some size) = take size (drop k ids)
page_artwork_ids ids (negsuc k) (some size) = []

abbrev pub cursors_of : Relay → ℕ → Option ℕ → ℕ → Option PageCursors
cursors_of relay page none total = none
cursors_of relay page (some size) total =
    create_page_cursors relay page size total 5 (some page_number_cap)

module _ {A : Type 0} (context : Context A) where
  abbrev pub is_in_refresh_experiment : Bool
  is_in_refresh_experiment = elim context.variant [
    | none ↦ false
    | some (enabled, name) ↦ enabled && str_eq name "variant"
  ]

  unfoldable pub is_eligible_client : Bool
  is_eligible_client = elim (get_eigen_version_number context.to_number context.user_agent) [
    | none ↦ false
    | some version ↦ is_in_refresh_experiment && is_at_least_version version minimum_eigen_version
  ]

  -- A missing loader is called all the same, which throws.
  unfoldable pub get_artwork_ids_from_vortex : Option String → Option (List String)
  get_artwork_ids_from_vortex user =
      let loader =
        if is_truthy context.x_impersonate_user_id
        then context.vortex_unauthenticated
        else context.vortex_authenticated in
      loader >>= λ load. load user

  unfoldable pub use_gravity : Option String → Bool
  unfolding is_eligible_client
  use_gravity user =
      is_some context.rail
      && (not (is_truthy context.x_impersonate_user_id)
          && (is_eligible_client
              && context.is_feature_flag_enabled "onyx_artwork-recommendations-gravity" user))

  unfoldable pub recommended_ids : Option (List String)
  unfolding use_gravity get_artwork_ids_from_vortex
  recommended_ids =
      let user = or_text context.user_id context.x_impersonate_user_id in
      if use_gravity user then context.rail >>= rail_ids else get_artwork_ids_from_vortex user

  abbrev pub loaded_artworks :
      (List String → Option (List A)) → List String → List String → Option (List A)
  loaded_artworks load [] page_ids = some []
  loaded_artworks load (id ∷ ids) page_ids = load page_ids

  -- `resolve` of `ArtworkRecommendations`: `some none` is undefined.
  unfoldable pub artwork_recommendations :
      ConnectionOptions Unit → Option (Option (ArtworkRecommendations A))
  unfolding recommended_ids page_artwork_ids
  artwork_recommendations options =
      let args = convert_connection_args_to_gravity_args context.get_paging_parameters options in
      if not (is_some context.vortex_authenticated) then some none else elim context.artworks [
        | none ↦ some none
        | some load ↦ recommended_ids >>= λ ids.
            loaded_artworks load ids (page_artwork_ids ids args.offset args.size) >>= λ artworks.
            some (
              some (record {
                artworks = artworks;
                total_count = length ids;
                slice_start = args.offset;
                page_cursors = cursors_of context.relay args.page args.size (length ids);
                has_previous_page = ltb 1 args.page;
                has_next_page = has_next_page args.page (length ids) args.size;
              }))
      ]

  abbrev pub artist_recommendations_of : GravityArgs Unit → List A → ArtistRecommendations A
  artist_recommendations_of args artists = record {
    artists = artists;
    total_count = length artists;
    page_cursors = cursors_of context.relay args.page args.size (length artists);
  }

  -- Without a loader, an exception; a missing body is an empty one.
  unfoldable pub fetch_similar_to_followed_artists :
      GravityArgs Unit → Option (Option (ArtistRecommendations A))
  fetch_similar_to_followed_artists args = elim context.suggested_similar_artists [
    | none ↦ none
    | some load ↦
        Option.map (λ (artists : List A). some (artist_recommendations_of args artists))
          (load args.page args.size)
  ]

  abbrev pub loaded_artists : (List String → Option (List A)) → List String → Option (List A)
  loaded_artists load [] = some []
  loaded_artists load (id ∷ ids) = load (id ∷ ids)

  abbrev pub hybrid_artists :
      GravityArgs Unit
      → (List String → Option (List A))
      → Option (Option String → Option (List String))
      → Option (Option (ArtistRecommendations A))
  hybrid_artists args load_artists none = some none
  hybrid_artists args load_artists (some load_ids) = do
    ids ← load_ids (or_text context.user_id context.x_impersonate_user_id)
    artists ← loaded_artists load_artists ids
    some (some (artist_recommendations_of args artists))

  unfoldable pub fetch_hybrid_recommendations :
      GravityArgs Unit → Option (Option (ArtistRecommendations A))
  fetch_hybrid_recommendations args =
      let loader =
        if is_truthy context.x_impersonate_user_id
        then context.vortex_unauthenticated
        else context.vortex_authenticated in
      if not (is_some context.vortex_authenticated)
      then some none
      else elim context.artists [ none ↦ some none | some load ↦ hybrid_artists args load loader ]

  -- `resolve` of `ArtistRecommendations`, given its source
  unfoldable pub artist_recommendations :
      ConnectionOptions Unit → String → Option (Option (ArtistRecommendations A))
  unfolding fetch_similar_to_followed_artists fetch_hybrid_recommendations
  artist_recommendations options source =
      let args = convert_connection_args_to_gravity_args context.get_paging_parameters options in
      if str_eq source "SIMILAR_TO_FOLLOWED"
      then fetch_similar_to_followed_artists args
      else fetch_hybrid_recommendations args
