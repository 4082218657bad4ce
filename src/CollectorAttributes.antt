-- ===== src/CollectorAttributes.antt =====
-- The attributes of a collector that a gallery is shown:
-- src/schema/v2/CollectorProfile/helpers/selectCollectorAttributes.ts.
mod Selected
mod Tests
use metaphysics.Common.{
  ℕ, ◌-◌, String, Bool, true, false, not, Option, none, some, List, [], ◌∷◌, ◌++◌, length, take,
  keep, find, or_else,
}

pub record Attribute : Type 0 where
  pub key : String
  pub label : String
  pub value : Bool

-- The raw attributes, each of which may be missing.
pub record RawAttributes : Type 0 where
  pub is_repeat_buyer : Option Bool
  pub is_recent_sign_up : Option Bool
  pub has_demonstrated_budget : Option Bool
  pub has_bought_works_from_partner : Option Bool
  pub has_inquired_about_works_from_artist : Option Bool
  pub has_inquired_about_works_from_partner : Option Bool
  pub has_enabled_alerts_on_a_represented_artist : Option Bool
  pub has_enabled_alerts_on_artist : Option Bool
  pub has_followed_partner : Option Bool
  pub has_followed_a_represented_artist : Option Bool
  pub has_saved_works_from_partner : Option Bool
  pub has_saved_works_from_artist : Option Bool

pub record SimilarGalleriesData : Type 0 where
  pub has_purchased_from_similar_galleries : Bool
  pub has_inquired_with_similar_galleries : Bool

abbrev pub is_false : Option Bool → Bool
is_false none = false
is_false (some b) = not b

abbrev pub attribute : String → String → Bool → Attribute
attribute key label value = record { key = key; label = label; value = value }

unfoldable pub user_activity_attributes : RawAttributes → List Attribute
user_activity_attributes raw =
    attribute "is_repeat_buyer" "Repeat Artsy buyer" (or_else raw.is_repeat_buyer false)
    ∷ attribute "is_active_user" "Active Artsy user" (is_false raw.is_recent_sign_up)
    ∷ attribute "is_recent_sign_up" "New Artsy user" (or_else raw.is_recent_sign_up false)
    ∷ []

abbrev pub budget_attributes : RawAttributes → List Attribute
budget_attributes raw =
    attribute "has_demonstrated_budget" "Demonstrated budget in line with this artwork"
      (or_else raw.has_demonstrated_budget false)
    ∷ []

abbrev pub gallery_attributes : RawAttributes → SimilarGalleriesData → List Attribute
gallery_attributes raw similar =
    attribute "has_bought_works_from_partner" "Purchased from your gallery"
      (or_else raw.has_bought_works_from_partner false)
    ∷ attribute "has_bought_works_from_similar_partners" "Purchased from galleries like you"
        similar.has_purchased_from_similar_galleries
    ∷ attribute "has_inquired_about_works_from_artist" "Inquired on artworks by this artist"
        (or_else raw.has_inquired_about_works_from_artist false)
    ∷ attribute "has_inquired_about_works_from_partner" "Inquired on works from your gallery"
        (or_else raw.has_inquired_about_works_from_partner false)
    ∷ []

abbrev pub artsy_activity_attributes : RawAttributes → List Attribute
artsy_activity_attributes raw =
    attribute "has_enabled_alerts_on_artist" "Enabled alerts on this artist"
      (or_else raw.has_enabled_alerts_on_artist false)
    ∷ attribute "has_enabled_alerts_on_a_represented_artist"
        "Enabled alerts on artists your gallery represents"
        (or_else raw.has_enabled_alerts_on_a_represented_artist false)
    ∷ attribute "has_saved_works_from_artist" "Saved works by this artist"
        (or_else raw.has_saved_works_from_artist false)
    ∷ attribute "has_saved_works_from_partner" "Saved works from your gallery"
        (or_else raw.has_saved_works_from_partner false)
    ∷ attribute "has_followed_a_represented_artist" "Follows an artist your gallery represents"
        (or_else raw.has_followed_a_represented_artist false)
    ∷ attribute "has_followed_partner" "Follows your gallery"
        (or_else raw.has_followed_partner false)
    ∷ []

-- The categories after the user's activity, in their order.
unfoldable pub remaining_categories : RawAttributes → SimilarGalleriesData → List Attribute
remaining_categories raw similar =
    budget_attributes raw ++ (gallery_attributes raw similar ++ artsy_activity_attributes raw)

abbrev pub user_activity_result : List Attribute → List Attribute
user_activity_result attributes = elim (find (λ (a : Attribute). a.value) attributes) [
  | none ↦ []
  | some a ↦ a ∷ []
]

unfoldable pub select_collector_attributes : RawAttributes → SimilarGalleriesData → List Attribute
select_collector_attributes raw similar =
    let activity = user_activity_result (user_activity_attributes raw) in
    let remaining_slots_count = 5 - length activity in
    activity
    ++ take remaining_slots_count
        (keep (λ (a : Attribute). a.value) (remaining_categories raw similar))
