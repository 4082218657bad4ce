-- ===== src/HomeView/Tests.antt =====
-- The home view on a concrete user and concrete sections.
use mathlib.Core.List.{Perm}
use metaphysics.Common.{
  ℕ, suc, String, ◌≡◌, refl, Bool, true, false, none, some, List, [], ◌∷◌, map, keep, find_index,
  get_elem?,
}
use metaphysics.HomeView.{
  response, Context, HomeViewSection, has_id, auction_lots_for_you, new_works_for_you,
  auction_engagement_rule, is_section_displayable, get_sections, take_out, insert_after,
  displayable_rule,
}
use metaphysics.HomeView.Mixing.{get_sections-perm, auction_lots_follow}

abbrev user : Context
user = record {
  access_token = some "token";
  user_id = some "user";
  user_agent = none;
  segmentation = response (some "engaged");
  unleash = none;
  to_number = λ s. none;
}

abbrev section : String → Bool → HomeViewSection
section id requires_authentication = record {
  id = id;
  requires_authentication = requires_authentication;
  feature_flag = none;
  minimum_eigen_version = none;
  maximum_eigen_version = none;
  should_be_displayed = none;
}

abbrev sections : List HomeViewSection
sections =
    section new_works_for_you true ∷ section "news" false ∷ section auction_lots_for_you true ∷ []

order :
    map (λ (s : HomeViewSection). s.id) (get_sections sections user)
    ≡ new_works_for_you ∷ auction_lots_for_you ∷ "news" ∷ []
unfolding get_sections displayable_rule is_section_displayable auction_engagement_rule take_out
    insert_after
order = refl

get_sections-perm_example :
    Perm (get_sections sections user) (keep (λ s. is_section_displayable s user) sections)
get_sections-perm_example = get_sections-perm sections user

auction_lots_follow_example :
    (i : ℕ) × (s : HomeViewSection) × (find_index
        (has_id new_works_for_you)
        (auction_engagement_rule sections user)
      ≡ some i)
    × (get_elem? (auction_engagement_rule sections user) (suc i) ≡ some s)
    × (has_id auction_lots_for_you s ≡ true)
auction_lots_follow_example = auction_lots_follow sections user refl refl refl
