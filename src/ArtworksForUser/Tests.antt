-- ===== src/ArtworksForUser/Tests.antt =====
-- Recommended artworks with backfill.
use metaphysics.Common.{String, true, false, none, some, List, [], ◌∷◌, ◌≡◌, refl}
use metaphysics.ArtworksForUser.{Args, recommended, refused, Context, artworks_for_user}

abbrev same : String → String
same id = id

abbrev args : Args
args = record {
  page = 1;
  size = 3;
  offset = 0;
  include_backfill = true;
  user_id = none;
  version = none;
  max_works_per_artist = none;
  marketable = false;
  backfill_marketing_collection_id = none;
  only_at_auction = false;
  exclude_disliked_artworks = false;
  exclude_artwork_ids = "art-2" ∷ [];
}

abbrev context : Context String
context = record {
  user_id = some "user-1";
  x_impersonate_user_id = none;
  is_rail_enabled = λ user. true;
  rail = some (λ user works. recommended (some ("art-1" ∷ "art-2" ∷ "art-3" ∷ [])));
  auction_lots_authenticated = none;
  auction_lots_unauthenticated = λ page size user. none;
  vortex_authenticated = none;
  vortex_unauthenticated = λ user version works. none;
  artworks = λ ids offset size marketable disliked. some ids;
  filter_authenticated = none;
  filter_unauthenticated = none;
  sets = some ("set-1" ∷ []);
  set_items = λ id disliked. some (some ("art-3" ∷ "art-4" ∷ "art-5" ∷ []));
}

filled_up :
    artworks_for_user same context args
    ≡ some (record { artworks = "art-1" ∷ "art-3" ∷ "art-4" ∷ []; total_count = 5 })
unfolding artworks_for_user
filled_up = refl

unknown_user :
    artworks_for_user same
      (record context { rail = some (λ user works. refused (some 404)) })
      (record args { include_backfill = false })
    ≡ some (record { artworks = []; total_count = 0 })
unfolding artworks_for_user
unknown_user = refl

logged_out : artworks_for_user same (record context { rail = none }) args ≡ none
unfolding artworks_for_user
logged_out = refl

no_auction_loader : artworks_for_user same context (record args { only_at_auction = true }) ≡ none
unfolding artworks_for_user
no_auction_loader = refl

abbrev new_works : List String
new_works = "art-1" ∷ "art-3" ∷ []

abbrev backfill_works : List String
backfill_works = "art-3" ∷ "art-4" ∷ "art-5" ∷ []
