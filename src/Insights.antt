-- ===== src/Insights.antt =====
-- The insights of an artist: src/schema/v2/artist/helpers.ts, the kinds and the artist.
-- The dates of the runtime are a parameter: whether a date is more than three years old, and its
-- year. A text that is null is `none`; the flags are Booleans; follower growth is a natural number.
pub mod Entities
pub mod Texts
pub mod Resolver
mod Ranking
mod Tests
use metaphysics.Common.{ℕ, String, Bool, Option, List, [], ◌∷◌, str_eq, find_index}

pub data ArtistInsightKind : Type 0 where
  high_auction_record : ArtistInsightKind
  active_secondary_market : ArtistInsightKind
  critically_acclaimed : ArtistInsightKind
  recent_career_event : ArtistInsightKind
  artsy_vanguard_year : ArtistInsightKind
  curators_pick_emerging : ArtistInsightKind
  trending_now : ArtistInsightKind
  gaining_followers : ArtistInsightKind
  solo_show : ArtistInsightKind
  group_show : ArtistInsightKind
  biennial : ArtistInsightKind
  private_collections : ArtistInsightKind
  collected : ArtistInsightKind
  reviewed : ArtistInsightKind
  awards : ArtistInsightKind
  residencies : ArtistInsightKind
  foundations : ArtistInsightKind

abbrev pub kind_name : ArtistInsightKind → String
kind_name high_auction_record = "HIGH_AUCTION_RECORD"
kind_name active_secondary_market = "ACTIVE_SECONDARY_MARKET"
kind_name critically_acclaimed = "CRITICALLY_ACCLAIMED"
kind_name recent_career_event = "RECENT_CAREER_EVENT"
kind_name artsy_vanguard_year = "ARTSY_VANGUARD_YEAR"
kind_name curators_pick_emerging = "CURATORS_PICK_EMERGING"
kind_name trending_now = "TRENDING_NOW"
kind_name gaining_followers = "GAINING_FOLLOWERS"
kind_name solo_show = "SOLO_SHOW"
kind_name group_show = "GROUP_SHOW"
kind_name biennial = "BIENNIAL"
kind_name private_collections = "PRIVATE_COLLECTIONS"
kind_name collected = "COLLECTED"
kind_name reviewed = "REVIEWED"
kind_name awards = "AWARDS"
kind_name residencies = "RESIDENCIES"
kind_name foundations = "FOUNDATIONS"

-- In order of importance
abbrev pub artist_insight_kinds : List ArtistInsightKind
artist_insight_kinds =
    high_auction_record ∷ active_secondary_market ∷ critically_acclaimed ∷ recent_career_event
    ∷ artsy_vanguard_year ∷ curators_pick_emerging ∷ trending_now ∷ gaining_followers ∷ solo_show
    ∷ group_show ∷ biennial ∷ private_collections ∷ collected ∷ reviewed ∷ awards ∷ residencies
    ∷ foundations ∷ []

-- The kinds in the order of the entries of the mapping.
abbrev pub mapped_kinds : List ArtistInsightKind
mapped_kinds =
    solo_show ∷ group_show ∷ collected ∷ reviewed ∷ biennial ∷ active_secondary_market
    ∷ high_auction_record ∷ artsy_vanguard_year ∷ gaining_followers ∷ critically_acclaimed
    ∷ trending_now ∷ curators_pick_emerging ∷ recent_career_event ∷ residencies
    ∷ private_collections ∷ awards ∷ foundations ∷ []

abbrev pub same_kind : ArtistInsightKind → ArtistInsightKind → Bool
same_kind a b = str_eq (kind_name a) (kind_name b)

pub record AuctionRecord : Type 0 where
  pub price : String
  pub organization : Option String
  pub year : String
  pub url : String

pub record Artist : Type 0 where
  pub database_id : String
  pub id : String
  pub solo_show_institutions : Option (List String)
  pub group_show_institutions : Option (List String)
  pub collected_institutions : Option (List String)
  pub review_sources : Option String
  pub biennials : Option String
  pub is_active_secondary_market : Bool
  pub auction_record : Option AuctionRecord
  pub vanguard_year : Option String
  pub follower_growth : Option ℕ
  pub is_critically_acclaimed : Bool
  pub curated_trending_weekly : Bool
  pub curated_emerging : Bool
  pub recent_show : Option String
  pub residency_names : Option String
  pub private_collection_names : Option String
  pub award_names : Option String
  pub foundation_names : Option String

-- `new Date(date) < threeYearsAgo` and `new Date(date).getFullYear()`
pub record Dates : Type 0 where
  pub is_old : String → Bool
  pub full_year : String → String

-- Every kind is in the list, so `indexOf` finds it.
abbrev pub kind_rank : ArtistInsightKind → Option ℕ
kind_rank kind = find_index (same_kind kind) artist_insight_kinds
