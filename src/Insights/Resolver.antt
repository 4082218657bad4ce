-- ===== src/Insights/Resolver.antt =====
-- The resolver of an artist's insights: src/schema/v2/artist/insights.ts, and the functions of
-- src/schema/v2/artist/helpers.ts that it calls.
use metaphysics.Common.{
  ℕ, String, Bool, false, Option, none, some, List, [], ◌∷◌, map, if◌then◌else◌, ◌<>◌, keep, length,
  get_elem?, or_else, split, trim, any,
}
use mathlib.Core.Option
use metaphysics.Money.{Currency, Amount, price_display_text}
use metaphysics.Common.Sort.{sort_by}
use metaphysics.Insights.{
  ArtistInsightKind, high_auction_record, solo_show, group_show, collected, Artist, AuctionRecord,
  Dates, same_kind, mapped_kinds, kind_rank,
}
use metaphysics.Insights.Entities.{get_entities}
use metaphysics.Insights.Texts.{get_description, get_label}

pub record ArtistInsight : Type 0 where
  pub count : ℕ
  pub description : Option String
  pub entities : List String
  pub kind : ArtistInsightKind
  pub label : String

-- An element of the list: `bare` is the one that has the artist alone.
pub data Entry : Type 0 where
  bare : Entry
  visible : ArtistInsight → Entry

unfoldable pub insight_of : Dates → Artist → ArtistInsightKind → List String → ArtistInsight
unfolding get_description get_label
insight_of dates artist kind entities = record {
  count = length entities;
  description = get_description dates kind artist;
  entities = entities;
  kind = kind;
  label = get_label kind artist (length entities);
}

unfoldable pub entry_of : Dates → Artist → ArtistInsightKind → Entry
unfolding get_entities insight_of
entry_of dates artist kind = elim (get_entities dates kind artist) [
  | none ↦ bare
  | some entities ↦ visible (insight_of dates artist kind entities)
]

abbrev pub entry_rank : Entry → Option ℕ
entry_rank bare = none
entry_rank (visible i) = kind_rank i.kind

-- `compact` drops nothing: an entry is an object.
unfoldable pub get_artist_insights : Dates → Artist → List Entry
unfolding sort_by entry_of
get_artist_insights dates artist = sort_by entry_rank (map (entry_of dates artist) mapped_kinds)

-- A lot of the auction lots' response.
pub record AuctionLot : Type 0 where
  pub lot_id : String
  pub organization : Option String
  pub currency : String
  pub price_realized_cents : ℕ
  pub sale_date : String

-- What the resolver calls: the trusted artists, the currencies, numeral and the loaders, where `none` is an
-- error or a rejected request. The career highlights' loader takes an artist's id and a type, and
-- answers venues, or nothing.
pub record Services : Type 0 where
  pub dates : Dates
  pub is_trusted : String → Bool
  pub currencies : String → Option Currency
  pub numeral : Amount → String → String
  pub auction_lots : String → Option (List AuctionLot)
  pub career_highlights : Option (String → String → Option (Option (List String)))

module _ (services : Services) where
  open services use {dates, is_trusted, currencies, numeral, auction_lots, career_highlights}

  unfoldable pub auction_record_of : AuctionLot → Option AuctionRecord
  unfolding price_display_text
  auction_record_of lot =
      elim (price_display_text currencies numeral lot.price_realized_cents lot.currency "0.0a"
        false) [
          | none ↦ none
          | some price ↦ some (record {
            price = price;
            organization = lot.organization;
            year = or_else (get_elem? (split b'-' lot.sale_date) 0) "undefined";
            url = "/auction-result/" <> lot.lot_id;
          })
        ]

  -- The inner `none` is null.
  unfoldable pub get_auction_record : Artist → Option (Option AuctionRecord)
  get_auction_record artist =
      if is_trusted artist.database_id
      then elim (auction_lots artist.database_id) [
        | none ↦ none
        | some lots ↦ elim lots [
          | [] ↦ some none
          | ◌∷◌ lot more ↦ Option.map some (auction_record_of lot)
        ]
      ]
      else some none

  unfoldable pub get_artist_career_highlights : String → String → Option (List String)
  get_artist_career_highlights artist_id highlight_type = elim career_highlights [
    | none ↦ none
    | some loader ↦ elim (loader artist_id highlight_type) [
      | none ↦ none
      | some response ↦ Option.map (λ (venues : List String). map trim venues) response
    ]
  ]

  abbrev pub asks : List ArtistInsightKind → ArtistInsightKind → Bool
  asks kinds kind = any (λ (k : ArtistInsightKind). same_kind k kind) kinds

  -- A round of the loop over the valid types.
  unfoldable pub highlights_if :
      List ArtistInsightKind
      → Artist
      → ArtistInsightKind
      → String
      → Option (List String)
      → Option (List String)
  unfolding get_artist_career_highlights
  highlights_if kinds artist kind highlight_type institutions =
      if asks kinds kind
      then get_artist_career_highlights artist.database_id highlight_type
      else institutions

  unfoldable pub enrich_with_artist_career_highlights : List ArtistInsightKind → Artist → Artist
  unfolding highlights_if
  enrich_with_artist_career_highlights kinds artist = elim career_highlights [
    | none ↦ artist
    | some loader ↦ record artist {
      solo_show_institutions =
          highlights_if kinds artist solo_show "solo" artist.solo_show_institutions;
      group_show_institutions =
          highlights_if kinds artist group_show "group" artist.group_show_institutions;
      collected_institutions =
          highlights_if kinds artist collected "collected" artist.collected_institutions;
    }
  ]

  unfoldable pub enriched : List ArtistInsightKind → Artist → Option Artist
  unfolding get_auction_record auction_record_of enrich_with_artist_career_highlights
  enriched kinds artist =
      if asks kinds high_auction_record
      then elim (get_auction_record artist) [
        | none ↦ none
        | some r ↦
            some (enrich_with_artist_career_highlights kinds (record artist { auction_record = r }))
      ]
      else some (enrich_with_artist_career_highlights kinds artist)

  abbrev pub is_asked : List ArtistInsightKind → Entry → Bool
  is_asked kinds bare = false
  is_asked kinds (visible i) = asks kinds i.kind

  -- The resolver of the insights of the given kinds; `none` is an error.
  unfoldable pub artist_insights : List ArtistInsightKind → Artist → Option (List Entry)
  unfolding enriched get_artist_insights
  artist_insights kinds artist = elim (enriched kinds artist) [
    | none ↦ none
    | some a ↦ some (keep (is_asked kinds) (get_artist_insights dates a))
  ]
