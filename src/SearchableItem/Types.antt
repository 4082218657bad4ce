-- ===== src/SearchableItem/Types.antt =====
-- Links, display types and descriptions of search results.
use metaphysics.Common.{
  shown, String, ◌≡◌, true, Option, none, arith, non_empty, non_empty-append, ◌<>◌,
}
use metaphysics.SearchableItem.{SearchItem, UtcMoments, display_type, path_of, href}
use metaphysics.SearchableItem.Descriptions.{formatted_description}

-- An artist series has no description whatever its fields are: its display type is "Artist Series",
-- and the descriptions are chosen by the display type under the name "ArtistSeries".
pub artist_series-undescribed :
    {M : Type 0} (m : UtcMoments M) (strip_tags : Option String → String) (item : SearchItem)
    → item.label ≡ "ArtistSeries"
    → formatted_description m strip_tags item ≡ none
unfolding formatted_description display_type
artist_series-undescribed m strip_tags item h = simp h

path_of-non_empty : (item : SearchItem) → non_empty (path_of item) ≡ true
unfolding path_of
path_of-non_empty item = ground (
  arith,
  non_empty-append "/" (shown item.id),
  non_empty-append "/" (shown item.profile_id),
  non_empty-append "/auction/" (shown item.id),
  non_empty-append "/shows/" (shown item.id),
  non_empty-append "/collection/" (shown item.id),
  non_empty-append "/show/" (shown item.id),
  non_empty-append "/artist-series/" (shown item.id),
  non_empty-append "/viewing-room/" (shown item.id),
  non_empty-append "/" (shown item.model <> ("/" <> shown item.id)),
)

-- Every search result has a link that is not empty.
pub href-non_empty : (item : SearchItem) → non_empty (href item) ≡ true
unfolding href
href-non_empty item = ground (arith, path_of-non_empty item)
