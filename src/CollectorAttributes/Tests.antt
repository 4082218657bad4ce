-- ===== src/CollectorAttributes/Tests.antt =====
-- Collectors with more and with fewer attributes.
use metaphysics.Common.{String, true, false, none, some, List, [], ◌∷◌, map, ◌≡◌, refl}
use metaphysics.CollectorAttributes.{
  Attribute, RawAttributes, SimilarGalleriesData, user_activity_attributes, remaining_categories,
  select_collector_attributes,
}

abbrev nothing_known : RawAttributes
nothing_known = record {
  is_repeat_buyer = none;
  is_recent_sign_up = none;
  has_demonstrated_budget = none;
  has_bought_works_from_partner = none;
  has_inquired_about_works_from_artist = none;
  has_inquired_about_works_from_partner = none;
  has_enabled_alerts_on_a_represented_artist = none;
  has_enabled_alerts_on_artist = none;
  has_followed_partner = none;
  has_followed_a_represented_artist = none;
  has_saved_works_from_partner = none;
  has_saved_works_from_artist = none;
}

abbrev busy : RawAttributes
busy = record nothing_known {
  is_repeat_buyer = some true;
  is_recent_sign_up = some false;
  has_demonstrated_budget = some true;
  has_inquired_about_works_from_artist = some true;
  has_enabled_alerts_on_artist = some true;
  has_followed_partner = some true;
}

abbrev similar : SimilarGalleriesData
similar = record {
  has_purchased_from_similar_galleries = true;
  has_inquired_with_similar_galleries = false;
}

abbrev keys : List Attribute → List String
keys attributes = map (λ (a : Attribute). a.key) attributes

five_of_six :
    keys (select_collector_attributes busy similar)
    ≡ "is_repeat_buyer" ∷ "has_demonstrated_budget" ∷ "has_bought_works_from_similar_partners"
      ∷ "has_inquired_about_works_from_artist" ∷ "has_enabled_alerts_on_artist" ∷ []
unfolding select_collector_attributes user_activity_attributes remaining_categories
five_of_six = refl

active_user :
    keys (
      select_collector_attributes
        (record nothing_known { is_recent_sign_up = some false })
        (record similar { has_purchased_from_similar_galleries = false }))
    ≡ "is_active_user" ∷ []
unfolding select_collector_attributes user_activity_attributes remaining_categories
active_user = refl
