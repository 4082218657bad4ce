-- ===== src/Insights/Ranking.antt =====
-- The insights that a query shows stand in order of importance.
use metaphysics.Common.{
  String, Bool, true, if◌then◌else◌, Option, none, some, List, [], ◌∷◌, map, keep, is_some, or_else,
  ◌&&◌, ◌≡◌, refl, sym, ap, ◌∙◌, Option-cases, Bool-cases, inl, inr,
}
use mathlib.Core.Bool.{false≢true}
use mathlib.Core.Option
use metaphysics.Common.Sort.{sort_by, keep-sort_by, sort_by-map}
use metaphysics.Insights.{
  ArtistInsightKind, Artist, AuctionRecord, high_auction_record, solo_show, group_show, collected,
  artist_insight_kinds, mapped_kinds, kind_rank,
}
use metaphysics.Insights.Entities.{get_entities}
use metaphysics.Insights.Resolver.{
  Entry, bare, visible, insight_of, entry_of, entry_rank, get_artist_insights, Services, asks,
  highlights_if, enriched, is_asked, artist_insights, get_auction_record,
  get_artist_career_highlights, enrich_with_artist_career_highlights,
}

module _ (services : Services) (kinds : List ArtistInsightKind) (artist : Artist) where
  -- The kinds that are asked for and have entities.
  unfoldable pub is_shown : ArtistInsightKind → Bool
  is_shown kind = is_some (get_entities services.dates kind artist) && asks services kinds kind

  unfoldable pub shown_entry : ArtistInsightKind → Entry
  shown_entry kind =
      visible (
        insight_of services.dates artist kind
          (or_else (get_entities services.dates kind artist) []))

  hidden_entry :
      (k : ArtistInsightKind)
      → get_entities services.dates k artist ≡ none
      → entry_of services.dates artist k ≡ bare
  unfolding entry_of
  hidden_entry k e = rw (e, entry_of) refl

  visible_entry :
      (k : ArtistInsightKind)
      → is_some (get_entities services.dates k artist) ≡ true
      → entry_of services.dates artist k ≡ shown_entry k
  unfolding entry_of shown_entry
  visible_entry k h = elim (Option-cases (get_entities services.dates k artist)) [
    | inl e ↦ absurd (false≢true (rw e at h))
    | inr (es, e) ↦ rw (e, entry_of, shown_entry) refl
  ]

  asked_entry :
      (k : ArtistInsightKind) → is_asked services kinds (shown_entry k) ≡ asks services kinds k
  unfolding shown_entry insight_of
  asked_entry k = refl

  keep-entries :
      (ks : List ArtistInsightKind)
      → keep (is_asked services kinds) (map (entry_of services.dates artist) ks)
        ≡ map shown_entry (keep is_shown ks)
  unfolding is_shown
  keep-entries [] = refl
  keep-entries (k ∷ ks) = elim (Option-cases (get_entities services.dates k artist)) [
    | inl e ↦ rw (hidden_entry k e, e) (keep-entries ks)
    | inr (es, e) ↦ elim (Bool-cases (asks services kinds k)) [
      | inl a ↦
          rw (visible_entry k (rw e refl), e, asked_entry k, a)
            (ap (λ (l : List Entry). shown_entry k ∷ l) (keep-entries ks))
      | inr a ↦ rw (visible_entry k (rw e refl), e, asked_entry k, a) (keep-entries ks)
    ]
  ]

  ranked : sort_by kind_rank mapped_kinds ≡ artist_insight_kinds
  unfolding sort_by
  ranked = refl

  entry_ranks : (λ (k : ArtistInsightKind). entry_rank (shown_entry k)) ≡ kind_rank
  unfolding shown_entry insight_of
  entry_ranks = refl

  keep-insights :
      keep (is_asked services kinds) (get_artist_insights services.dates artist)
      ≡ map shown_entry (keep is_shown artist_insight_kinds)
  unfolding get_artist_insights
  keep-insights =
      keep-sort_by entry_rank (is_asked services kinds)
        (map (entry_of services.dates artist) mapped_kinds)
      ∙ (ap (sort_by entry_rank) (keep-entries mapped_kinds)
          ∙ (sort_by-map entry_rank shown_entry (keep is_shown mapped_kinds)
              ∙ ap (map shown_entry) (
                  rw entry_ranks (
                    sym (keep-sort_by kind_rank is_shown mapped_kinds)
                    ∙ ap (keep is_shown) ranked))))

ranked_answer :
    (services : Services) (kinds : List ArtistInsightKind) (o : Option Artist)
    → (elim o as (λ (p : Option Artist). Option (List Entry)) [
      | none ↦ none
      | some a ↦ some (keep (is_asked services kinds) (get_artist_insights services.dates a))
    ])
      ≡ Option.map
          (λ (a : Artist).
            map
              (shown_entry services kinds a)
              (keep (is_shown services kinds a) artist_insight_kinds))
          o
ranked_answer services kinds none = refl
ranked_answer services kinds (some a) = ap some (keep-insights services kinds a)

-- The auction record that the artist is shown with: the outer `none` where it is asked for and cannot
-- be had.
abbrev pub shown_record : Services → List ArtistInsightKind → Artist → Option (Option AuctionRecord)
shown_record services kinds artist =
    if asks services kinds high_auction_record
    then get_auction_record services artist
    else some artist.auction_record

-- The institutions of a kind: those of the career highlights, where there is their loader and the kind
-- is asked for, and otherwise those that the artist has.
abbrev pub shown_institutions :
    Services
    → List ArtistInsightKind
    → Artist
    → ArtistInsightKind
    → String
    → Option (List String)
    → Option (List String)
shown_institutions services kinds artist kind highlight_type own =
    if is_some services.career_highlights && asks services kinds kind
    then get_artist_career_highlights services artist.database_id highlight_type
    else own

abbrev pub shown_artist : Services → List ArtistInsightKind → Artist → Option AuctionRecord → Artist
shown_artist services kinds artist r = record artist {
  auction_record = r;
  solo_show_institutions =
      shown_institutions services kinds artist solo_show "solo" artist.solo_show_institutions;
  group_show_institutions =
      shown_institutions services kinds artist group_show "group" artist.group_show_institutions;
  collected_institutions =
      shown_institutions services kinds artist collected "collected" artist.collected_institutions;
}

highlighted :
    (services : Services) (kinds : List ArtistInsightKind) (artist : Artist)
    → enrich_with_artist_career_highlights services kinds artist
      ≡ shown_artist services kinds artist artist.auction_record
unfolding enrich_with_artist_career_highlights highlights_if
highlighted services kinds artist = elim (Option-cases services.career_highlights) [
  | inl e ↦ rw (e, enrich_with_artist_career_highlights) refl
  | inr (loader, e) ↦ simp (e, enrich_with_artist_career_highlights)
]

enriched_lem :
    (services : Services) (kinds : List ArtistInsightKind) (artist : Artist)
    → enriched services kinds artist
      ≡ Option.map (shown_artist services kinds artist) (shown_record services kinds artist)
unfolding enriched
enriched_lem services kinds artist = elim (Bool-cases (asks services kinds high_auction_record)) [
  | inr a ↦ rw (a, enriched) (ap some (highlighted services kinds artist))
  | inl a ↦ elim (Option-cases (get_auction_record services artist)) [
    | inl g ↦ rw (a, g, enriched) refl
    | inr (r, g) ↦
        rw (a, g, enriched)
          (ap some (highlighted services kinds (record artist { auction_record = r })))
  ]
]

map-map :
    {A B C : Type 0} (f : B → C) (g : A → B) (o : Option A)
    → Option.map f (Option.map g o) ≡ Option.map (λ (a : A). f (g a)) o
map-map f g none = refl
map-map f g (some a) = refl

-- The resolver answers one insight for each kind that is asked for and has entities, in order of
-- importance, made from the artist with the high auction record, if that is asked for, and, where there
-- is the loader of career highlights, with their institutions for each kind that is asked for; all else
-- is as the artist has it. It fails just when the auction record is asked for and cannot be had.
pub artist_insights-ranked :
    (services : Services) (kinds : List ArtistInsightKind) (artist : Artist)
    → artist_insights services kinds artist
      ≡ Option.map
          (λ (r : Option AuctionRecord).
            let a = shown_artist services kinds artist r in
            map
              (shown_entry services kinds a)
              (keep (is_shown services kinds a) artist_insight_kinds))
          (shown_record services kinds artist)
unfolding artist_insights
artist_insights-ranked services kinds artist =
    let entries = λ (a : Artist).
      map (shown_entry services kinds a) (keep (is_shown services kinds a) artist_insight_kinds) in
    ranked_answer services kinds (enriched services kinds artist)
    ∙ (ap (Option.map entries) (enriched_lem services kinds artist)
        ∙ map-map entries (shown_artist services kinds artist) (shown_record services kinds artist))
