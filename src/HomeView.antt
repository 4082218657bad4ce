-- ===== src/HomeView.antt =====
-- The home view: src/schema/v2/homeView/helpers and src/schema/v2/homeView/mixer.
-- What the code reads of a request's context is a record; the Unleash client is part of it.
pub mod Displayable
pub mod Mixing
pub mod PriceBucket
mod Tests
use metaphysics.Common.{
  ℕ, zero, suc, ◌+◌, String, Bool, true, false, ◌&&◌, ◌||◌, not, Option, none, some, List, [], ◌∷◌,
  ◌++◌, if◌then◌else◌, is_truthy, non_empty, str_eq, keep, find_index, take, drop, get_elem?,
}
use metaphysics.Version.{
  SemanticVersionNumber, get_eigen_version_number, is_at_least_version, is_at_most_version,
}

-- What `auctionUserSegmentationLoader` does: it is missing, it fails, or it answers.
pub data Segmentation : Type 0 where
  no_loader rejected : Segmentation
  response : Option String → Segmentation

pub record Context : Type 0 where
  pub access_token : Option String
  pub user_id : Option String
  pub user_agent : Option String
  pub segmentation : Segmentation
  -- `isEnabled` of the Unleash client, `none` before it is initialized
  pub unleash : Option (String → Option String → Bool)
  -- the runtime's `Number`
  pub to_number : String → Option ℕ

pub record HomeViewSection : Type 0 where
  pub id : String
  pub requires_authentication : Bool
  pub feature_flag : Option String
  pub minimum_eigen_version : Option SemanticVersionNumber
  pub maximum_eigen_version : Option SemanticVersionNumber
  pub should_be_displayed : Option (Context → Bool)

unfoldable pub is_feature_flag_enabled : String → Context → Bool
is_feature_flag_enabled flag context = elim context.unleash [
  | none ↦ false
  | some is_enabled ↦ is_enabled flag context.user_id
]

-- The four tests of `isSectionDisplayable` that are made only while the section is displayable.
unfoldable pub passes_flag : Option String → Context → Bool → Bool
unfolding is_feature_flag_enabled
passes_flag none context displayable = displayable
passes_flag (some flag) context displayable =
    if displayable && non_empty flag then is_feature_flag_enabled flag context else displayable

-- A version bound is tested only if the section has one and the app's version is known.
unfoldable pub passes_version :
    (SemanticVersionNumber → SemanticVersionNumber → Bool)
    → Option SemanticVersionNumber
    → Option SemanticVersionNumber
    → Bool
    → Bool
passes_version test (some bound) (some actual) displayable =
    if displayable then test actual bound else displayable
passes_version test (some bound) none displayable = displayable
passes_version test none actual displayable = displayable

unfoldable pub passes_check : Option (Context → Bool) → Context → Bool → Bool
passes_check none context displayable = displayable
passes_check (some check) context displayable = displayable && check context

unfoldable pub is_section_displayable : HomeViewSection → Context → Bool
unfolding passes_flag passes_version passes_check
is_section_displayable section context =
    let is_public = not section.requires_authentication in
    let is_valid_personalized = section.requires_authentication && is_truthy context.access_token in
    let flagged = passes_flag section.feature_flag context (is_public || is_valid_personalized) in
    let actual = get_eigen_version_number context.to_number context.user_agent in
    let above = passes_version is_at_least_version section.minimum_eigen_version actual flagged in
    let below = passes_version is_at_most_version section.maximum_eigen_version actual above in
    passes_check section.should_be_displayed context below

-- `getUserAuctionSegmentation`: a failure is caught as null.
abbrev pub get_user_auction_segmentation : Segmentation → Option String
get_user_auction_segmentation no_loader = none
get_user_auction_segmentation rejected = none
get_user_auction_segmentation (response segment) = segment

abbrev pub auction_lots_for_you : String
auction_lots_for_you = "home-view-section-auction-lots-for-you"

abbrev pub new_works_for_you : String
new_works_for_you = "home-view-section-new-works-for-you"

abbrev pub is_segment : Option String → String → Bool
is_segment none name = false
is_segment (some segment) name = str_eq segment name

abbrev pub has_id : String → HomeViewSection → Bool
has_id id section = str_eq section.id id

-- `sections.findIndex((s) => s.id === id)`, and the removal of that section by `splice`
unfoldable pub take_out :
    String → List HomeViewSection → List HomeViewSection × List HomeViewSection
take_out id [] = ([], [])
take_out id (s ∷ sections) =
    let (moved, rest) = take_out id sections in
    if has_id id s then (s ∷ [], sections) else (moved, s ∷ rest)

-- `sections.splice(findIndex(…) + 1, 0, ...moved)`: at the front where no section has the id
unfoldable pub insert_after :
    String → List HomeViewSection → List HomeViewSection → List HomeViewSection
insert_after id moved sections = elim (find_index (has_id id) sections) [
  | none ↦ moved ++ sections
  | some i ↦ take (suc i) sections ++ (moved ++ drop (suc i) sections)
]

-- `AuctionEngagementRule.apply`
unfoldable pub auction_engagement_rule : List HomeViewSection → Context → List HomeViewSection
auction_engagement_rule sections context =
    let segment = get_user_auction_segmentation context.segmentation in
    let (moved, rest) = take_out auction_lots_for_you sections in
    if is_segment segment "adjacent" || is_segment segment "engaged"
    then insert_after new_works_for_you moved rest
    else sections

-- `DisplayableRule.apply`
unfoldable pub displayable_rule : List HomeViewSection → Context → List HomeViewSection
displayable_rule sections context =
    keep (λ section. is_section_displayable section context) sections

-- `HomeViewMixer.mix`: the rules in sequence
unfoldable pub mix :
    List (List HomeViewSection → Context → List HomeViewSection)
    → List HomeViewSection
    → Context
    → List HomeViewSection
mix [] sections context = sections
mix (rule ∷ rules) sections context = mix rules (rule sections context) context

-- `getSections` of the default zone, for the list of its sections
unfoldable pub get_sections : List HomeViewSection → Context → List HomeViewSection
unfolding mix
get_sections sections context =
    mix (displayable_rule ∷ auction_engagement_rule ∷ []) sections context

-- `getSectionsForUser`
unfoldable pub get_sections_for_user : List HomeViewSection → Context → List HomeViewSection
unfolding get_sections
get_sections_for_user sections context = get_sections sections context ++ []
