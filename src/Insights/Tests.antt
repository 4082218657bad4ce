-- ===== src/Insights/Tests.antt =====
-- Artists of the repository's own test.
use metaphysics.Common.{
  Option, String, true, false, none, some, List, [], ◌∷◌, map, keep, str_eq, if◌then◌else◌, ◌≡◌,
  refl, decimal, trim, split,
}
use mathlib.Core.Option
use metaphysics.Insights.{
  AuctionRecord, ArtistInsightKind, Artist, kind_name, artist_insight_kinds, critically_acclaimed,
  collected, biennial,
}
use metaphysics.Insights.Resolver.{Entry, bare, visible, Services, artist_insights}
use metaphysics.Insights.Ranking.{
  is_shown, shown_entry, shown_record, shown_artist, artist_insights-ranked,
}

abbrev plain : Artist
plain = record {
  database_id = "4d8b92b34eb68a1b2c0003f4";
  id = "foo-bar";
  solo_show_institutions = none;
  group_show_institutions = none;
  collected_institutions = none;
  review_sources = none;
  biennials = none;
  is_active_secondary_market = false;
  auction_record = none;
  vanguard_year = none;
  follower_growth = none;
  is_critically_acclaimed = false;
  curated_trending_weekly = false;
  curated_emerging = false;
  recent_show = none;
  residency_names = none;
  private_collection_names = none;
  award_names = none;
  foundation_names = none;
}

abbrev foo_bar : Artist
foo_bar = record plain {
  review_sources = some "Artforum International Magazine";
  biennials = some "frieze";
  is_active_secondary_market = true;
}

abbrev venues : String → List String
venues highlight_type =
    if str_eq highlight_type "solo"
    then "MoMA PS1" ∷ "Museum of Modern Art (MoMA)" ∷ []
    else if str_eq highlight_type "group"
    then "Metropolitan Museum of Art" ∷ []
    else " Museum of Modern Art (MoMA)" ∷ []

abbrev services : Services
services = record {
  dates = record { is_old = λ date. false; full_year = λ date. "2021" };
  is_trusted = λ artist. false;
  currencies = λ code. none;
  numeral = λ amount format. "";
  auction_lots = λ artist. none;
  career_highlights = some (λ artist highlight_type. some (some (venues highlight_type)));
}

abbrev kind_and_label : Entry → String × (String × List String)
kind_and_label bare = ("", ("", []))
kind_and_label (visible i) = (kind_name i.kind, (i.label, i.entities))

nothing_shown :
    artist_insights (record services { career_highlights = none }) artist_insight_kinds plain
    ≡ some []
unfolding artist_insights
nothing_shown = refl

all_present :
    Option.map (map kind_and_label) (artist_insights services artist_insight_kinds foo_bar)
    ≡ some (
        ("ACTIVE_SECONDARY_MARKET", ("Active secondary market", []))
        ∷ (
          "SOLO_SHOW",
          ("Solo show at 2 major institutions", "MoMA PS1" ∷ "Museum of Modern Art (MoMA)" ∷ []),
        )
        ∷ ("GROUP_SHOW", ("Group show at a major institution", "Metropolitan Museum of Art" ∷ []))
        ∷ ("BIENNIAL", ("Included in a major biennial", "frieze" ∷ []))
        ∷ ("COLLECTED", ("Collected by a major institution", "Museum of Modern Art (MoMA)" ∷ []))
        ∷ (
          "REVIEWED",
          ("Reviewed by a major art publication", "Artforum International Magazine" ∷ []),
        )
        ∷ [])
unfolding artist_insights decimal trim split
all_present = refl

abbrev asked : List ArtistInsightKind
asked = biennial ∷ collected ∷ critically_acclaimed ∷ []

artist_insights-ranked_example :
    artist_insights services asked foo_bar
    ≡ Option.map
        (λ (r : Option AuctionRecord).
          let a = shown_artist services asked foo_bar r in
          map
            (shown_entry services asked a)
            (keep (is_shown services asked a) artist_insight_kinds))
        (shown_record services asked foo_bar)
artist_insights-ranked_example = artist_insights-ranked services asked foo_bar
