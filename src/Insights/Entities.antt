-- ===== src/Insights/Entities.antt =====
-- The entities of an insight: src/schema/v2/artist/helpers.ts.
use metaphysics.Common.{
  ℕ, String, Bool, false, Option, none, some, List, [], map, if◌then◌else◌, leb, ◌<>◌, last_of,
  get_elem?, or_else, non_empty, is_truthy, split, trim, is_some, ◌&&◌,
}
use metaphysics.Insights.{
  ArtistInsightKind, high_auction_record, active_secondary_market, critically_acclaimed,
  recent_career_event, artsy_vanguard_year, curators_pick_emerging, trending_now, gaining_followers,
  solo_show, group_show, biennial, private_collections, collected, reviewed, awards, residencies,
  foundations, Artist, Dates,
}

unfoldable pub split_entities : Option String → Option (List String)
split_entities none = none
split_entities (some value) =
    if non_empty value then some (map trim (split b'|' (trim value))) else none

unfoldable pub get_recent_show : Dates → Option String → Option String
unfolding split_entities
get_recent_show dates recent_show = elim (split_entities recent_show) [
  | none ↦ none
  | some entities ↦
      let date = or_else (get_elem? entities 0) "undefined" in
      let show = or_else (last_of entities) "undefined" in
      if dates.is_old date then none else some (dates.full_year date <> (" " <> show))
]

abbrev pub growth_min_value : ℕ
growth_min_value = 20

-- `value && []`
abbrev pub empty_if : Bool → Option (List String)
empty_if value = if value then some [] else none

abbrev pub grown : Option ℕ → Bool
grown none = false
grown (some growth) = leb growth_min_value growth

-- The entities of a kind; `none` makes the insight invisible.
unfoldable pub get_entities : Dates → ArtistInsightKind → Artist → Option (List String)
unfolding get_recent_show split_entities
get_entities dates solo_show artist = artist.solo_show_institutions
get_entities dates group_show artist = artist.group_show_institutions
get_entities dates collected artist = artist.collected_institutions
get_entities dates reviewed artist = split_entities artist.review_sources
get_entities dates biennial artist = split_entities artist.biennials
get_entities dates active_secondary_market artist = empty_if artist.is_active_secondary_market
get_entities dates high_auction_record artist = empty_if (is_some artist.auction_record)
get_entities dates artsy_vanguard_year artist = empty_if (is_truthy artist.vanguard_year)
get_entities dates gaining_followers artist = empty_if (grown artist.follower_growth)
get_entities dates critically_acclaimed artist = empty_if artist.is_critically_acclaimed
get_entities dates trending_now artist = empty_if artist.curated_trending_weekly
get_entities dates curators_pick_emerging artist = empty_if artist.curated_emerging
get_entities dates recent_career_event artist =
    empty_if (is_truthy artist.recent_show && is_truthy (get_recent_show dates artist.recent_show))
get_entities dates residencies artist = split_entities artist.residency_names
get_entities dates private_collections artist = split_entities artist.private_collection_names
get_entities dates awards artist = split_entities artist.award_names
get_entities dates foundations artist = empty_if (is_some (split_entities artist.foundation_names))
