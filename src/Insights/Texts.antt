-- ===== src/Insights/Texts.antt =====
-- The texts of an insight: src/schema/v2/artist/helpers.ts.
use metaphysics.Common.{
  ℕ, ◌-◌, String, Option, none, some, [], ◌∷◌, if◌then◌else◌, str_eq, ◌==◌, ◌<>◌, join, length,
  take, last_of, or_else, non_empty, is_truthy, shown, decimal,
}
use metaphysics.Insights.{
  ArtistInsightKind, high_auction_record, active_secondary_market, critically_acclaimed,
  recent_career_event, artsy_vanguard_year, curators_pick_emerging, trending_now, gaining_followers,
  solo_show, group_show, biennial, private_collections, collected, reviewed, awards, residencies,
  foundations, Artist, AuctionRecord, Dates,
}
use metaphysics.Insights.Entities.{split_entities, get_recent_show}

abbrev pub counted : ℕ → String → String → String
counted count one many = if count == 1 then one else decimal count <> (" " <> many)

unfoldable pub format_foundations_label : Option String → String
unfolding split_entities
format_foundations_label names = elim (split_entities names) [
  | none ↦ "Foundations"
  | some entities ↦
      if length entities == 0
      then "Foundations"
      else let all_but_last = join ", " (take (length entities - 1) entities) in
        let last_item = or_else (last_of entities) "undefined" in
        "Foundations "
        <> (if non_empty all_but_last then all_but_last <> (" and " <> last_item) else last_item)
]

abbrev pub foundations_url : String → Option String
foundations_url name =
    if str_eq name "Summer 2023"
    then some "/fair/foundations"
    else if str_eq name "Winter 2024"
    then some "/fair/foundations-winter-2024"
    else if str_eq name "Summer 2024"
    then some "/fair/foundations-summer-2024"
    else if str_eq name "Summer 2025"
    then some "/fair/foundations-2025"
    else none

unfoldable pub format_foundations_description : Option String → Option String
unfolding split_entities
format_foundations_description names =
    if is_truthy names
    then (let entities = or_else (split_entities names) [] in
        let url = foundations_url (or_else (last_of entities) "undefined") in
        some (
          "Featured in [Foundations]("
          <> (shown url <> "), the online fair for emerging art, curated by Artsy.")))
    else none

abbrev pub record_description : AuctionRecord → String
record_description r =
    "[" <> (join ", " (or_else r.organization "" ∷ r.year ∷ []) <> ("](" <> (r.url <> ")")))

unfoldable pub get_description : Dates → ArtistInsightKind → Artist → Option String
unfolding get_recent_show format_foundations_description
get_description dates kind artist = elim kind [
  | active_secondary_market ↦ some (
      "Recent auction results in the [Artsy Price Database](/artist/"
      <> (artist.id <> "/auction-results)"))
  | high_auction_record ↦ elim artist.auction_record [
    | none ↦ none
    | some r ↦ some (record_description r)
  ]
  | artsy_vanguard_year ↦
      some
        "Featured in Artsy’s [annual list](/collection/artsy-vanguard-artists) of the most promising artists working today"
  | gaining_followers ↦ some (
      elim artist.follower_growth [ none ↦ "null" | some growth ↦ decimal growth ]
      <> "% increase in Artsy followers compared to same time last year.")
  | critically_acclaimed ↦ some "Recognized by major institutions and publications"
  | trending_now ↦
      some
        "[Works by this artist](/collection/trending-now) are among the most searched, viewed, and asked-about pieces on Artsy."
  | curators_pick_emerging ↦
      some
        "Works by this artist were handpicked for [this collection](/collection/curators-picks-emerging) of rising talents to watch."
  | recent_career_event ↦
      if is_truthy artist.recent_show
      then get_recent_show dates artist.recent_show
      else artist.recent_show
  | foundations ↦ format_foundations_description artist.foundation_names
  | _ ↦ none
]

unfoldable pub get_label : ArtistInsightKind → Artist → ℕ → String
unfolding format_foundations_label
get_label solo_show artist count =
    "Solo show at " <> counted count "a major institution" "major institutions"
get_label group_show artist count =
    "Group show at " <> counted count "a major institution" "major institutions"
get_label collected artist count =
    "Collected by " <> counted count "a major institution" "major institutions"
get_label reviewed artist count =
    "Reviewed by " <> counted count "a major art publication" "major art publications"
get_label biennial artist count =
    "Included in " <> counted count "a major biennial" "major biennials"
get_label active_secondary_market artist count = "Active secondary market"
get_label high_auction_record artist count = elim artist.auction_record [
  | none ↦ "High auction record"
  | some r ↦ "High auction record (" <> (r.price <> ")")
]
get_label artsy_vanguard_year artist count = "The Artsy Vanguard " <> shown artist.vanguard_year
get_label gaining_followers artist count = "Gaining Followers"
get_label critically_acclaimed artist count = "Critically acclaimed"
get_label trending_now artist count = "Featured in Trending Now"
get_label curators_pick_emerging artist count = "Featured in Curators’ Picks: Emerging"
get_label recent_career_event artist count = "Recent career event"
get_label residencies artist count =
    "Participated in " <> counted count "a notable artist residency" "notable artist residencies"
get_label private_collections artist count =
    "Collected by " <> counted count "a notable private collector" "notable private collectors"
get_label awards artist count =
    "Winner of " <> counted count "a top industry award" "top industry awards"
get_label foundations artist count = format_foundations_label artist.foundation_names
