-- ===== src/Recommendations/Tests.antt =====
-- Recommendations of Vortex and of Gravity.
use metaphysics.Common.{
  split, if◌then◌else◌, ℕ, String, true, false, Option, none, some, [], ◌∷◌, ◌≡◌, refl, str_eq,
}
use metaphysics.Pagination.{ceil_div}
use metaphysics.Pagination.Args.{ConnectionOptions}
use metaphysics.Version.{get_eigen_version_number, parse_version, is_at_least_version}
use metaphysics.ArtworksForUser.{recommended}
use metaphysics.Search.{has_next_page}
use metaphysics.Recommendations.{
  Context, recommended_ids, use_gravity, is_eligible_client, get_artwork_ids_from_vortex,
  artist_recommendations, fetch_similar_to_followed_artists,
}
use metaphysics.Recommendations.Pages.{pages_up_to, pages_up_to-whole}

abbrev number : String → Option ℕ
number text = if str_eq text "9" then some 9 else if str_eq text "12" then some 12 else some 0

abbrev context : Context String
context = record {
  relay = record { to_global_id = λ type id. id; string_of = λ n. "cursor" };
  get_paging_parameters = λ options. (options.first, 0);
  artworks = some (λ ids. some ids);
  artists = none;
  vortex_authenticated = some (λ user. some ("v" ∷ "w" ∷ []));
  vortex_unauthenticated = none;
  rail = some (recommended (some ("g" ∷ "h" ∷ "i" ∷ [])));
  suggested_similar_artists = none;
  user_id = some "user";
  x_impersonate_user_id = none;
  user_agent = some "Artsy-Mobile/9.12.0";
  to_number = number;
  variant = some (true, "variant");
  is_feature_flag_enabled = λ flag user. true;
}

from_gravity : recommended_ids context ≡ some ("g" ∷ "h" ∷ "i" ∷ [])
unfolding recommended_ids use_gravity is_eligible_client get_eigen_version_number parse_version
    is_at_least_version split
from_gravity = refl

from_vortex :
    recommended_ids (record context { user_agent = some "Artsy-Mobile/9.0.0" })
    ≡ some ("v" ∷ "w" ∷ [])
unfolding recommended_ids use_gravity is_eligible_client get_eigen_version_number parse_version
    is_at_least_version get_artwork_ids_from_vortex split
from_vortex = refl

-- The loader that an impersonating request uses may be missing.
impersonated : recommended_ids (record context { x_impersonate_user_id = some "x" }) ≡ none
unfolding recommended_ids use_gravity get_artwork_ids_from_vortex
impersonated = refl

no_next_page : has_next_page 2 3 (some 2) ≡ false
unfolding has_next_page ceil_div
no_next_page = refl

pages_up_to-whole_example : pages_up_to ("g" ∷ "h" ∷ "i" ∷ []) 2 2 ≡ "g" ∷ "h" ∷ "i" ∷ []
pages_up_to-whole_example = pages_up_to-whole ("g" ∷ "h" ∷ "i" ∷ []) 1 2 no_next_page

abbrev options : ConnectionOptions Unit
options = record {
  first = some 2;
  after = none;
  last = none;
  before = none;
  page = none;
  size = none;
  offset = none;
  rest = tt;
}

artists_of_nobody : artist_recommendations context options "SIMILAR_TO_FOLLOWED" ≡ none
unfolding artist_recommendations fetch_similar_to_followed_artists
artists_of_nobody = refl
