-- ===== src/SearchableItem/Descriptions.antt =====
-- The descriptions of search results: `formattedDescription` and what it calls, of
-- src/schema/v2/SearchableItem/SearchableItemPresenter.ts.
use metaphysics.Common.{
  shown, String, ◌&&◌, ◌||◌, not, Option, none, some, [], ◌∷◌, if◌then◌else◌, is_truthy, or_text,
  join, includes, str_eq, ◌<>◌, ◌==◌,
}
use metaphysics.SearchableItem.{
  date_format, display_type, formatted_artist_names, compact, prefixed, plain_types, tagged_types,
  with_location, status_label, SearchItem, UtcMoments,
}

module _ {M : Type 0} (m : UtcMoments M) where
  open m use {
    utc, now, is_valid, in_zone, format, start_of_day, diff_days, year, month, date, string_of,
  }

  -- After `momentTime.tz(timezone)`, which changes the moment, both formats are in the zone.
  unfoldable pub formatted_time : Option String → String → Option String → Option String
  formatted_time timestamp time_format timezone =
      let at = utc timestamp in
      let zoned = λ (zone : String).
        format (in_zone at zone) time_format
        <> (" (at " <> (format (in_zone at zone) "h:mma z" <> ")")) in
      if not (is_valid at)
      then none
      else if is_truthy timezone
      then some (zoned (shown timezone))
      else some (format at time_format)

  unfoldable pub formatted_event_description : SearchItem → String → Option String → Option String
  unfolding formatted_time
  formatted_event_description item title timezone =
      let start = formatted_time (or_text item.live_start_at item.start_at) date_format timezone in
      let finish = formatted_time item.end_at date_format timezone in
      if is_truthy start && is_truthy finish
      then some (
          with_location (title <> (" running from " <> (shown start <> (" to " <> shown finish))))
            item.location)
      else if is_truthy start
      then some (with_location (title <> (" opening " <> shown start)) item.location)
      else item.description

  unfoldable pub formatted_article_description : SearchItem → Option String
  formatted_article_description item =
      let published = formatted_time item.published_at date_format none in
      if is_truthy published && is_truthy item.description
      then some (shown published <> (" ... " <> shown item.description))
      else if is_truthy published
      then published
      else item.description

  unfoldable pub formatted_lead_heading : SearchItem → String
  unfolding status_label
  formatted_lead_heading item =
      let today = start_of_day now in
      let status =
        status_label (diff_days (utc item.start_at) today) (diff_days (utc item.end_at) today) in
      if not (is_truthy item.start_at) || not (is_truthy item.end_at)
      then if is_truthy item.fair_id then "Fair booth" else "Show"
      else status <> (" " <> (if is_truthy item.fair_id then "fair booth" else "show"))

  unfoldable pub formatted_running_time : SearchItem → String
  formatted_running_time item =
      let start = utc item.start_at in
      let finish = utc item.end_at in
      let start_day = format start "MMM" <> (" " <> format start "Do") in
      let end_day = format finish "MMM" <> (" " <> format finish "Do") in
      let month_and_date =
        if month start == month finish && date start == date finish
        then start_day
        else if month start == month finish
        then start_day <> (" – " <> format finish "Do")
        else start_day <> (" – " <> end_day) in
      if not (is_truthy item.start_at) || not (is_truthy item.end_at)
      then ""
      else if year start == year finish
      then if not (year start == year now)
        then month_and_date <> (" " <> string_of (year start))
        else month_and_date
      else start_day
        <> (", " <> (format start "YYYY" <> (" – " <> (end_day <> (", " <> format finish "YYYY")))))

  unfoldable pub formatted_show_description : SearchItem → String
  unfolding formatted_lead_heading formatted_running_time formatted_artist_names
  formatted_show_description item = join " " (
      compact (
        some (formatted_lead_heading item)
        ∷ prefixed "featuring works by " (formatted_artist_names item)
        ∷ prefixed "at " item.venue
        ∷ item.location
        ∷ some (formatted_running_time item)
        ∷ []))

  -- `stripTags` of src/lib/helpers.ts, whose regular expression is the runtime's, is a parameter.
  unfoldable pub describe : (Option String → String) → String → SearchItem → Option String
  unfolding formatted_article_description formatted_event_description formatted_show_description
  describe strip_tags kind item =
      if str_eq kind "Article"
      then formatted_article_description item
      else if str_eq kind "Fair"
      then formatted_event_description item "Art fair" none
      else if str_eq kind "Auction"
      then formatted_event_description item "Sale" (some "America/New_York")
      else if includes plain_types kind
      then item.description
      else if str_eq kind "Booth" || str_eq kind "Show"
      then some (formatted_show_description item)
      else if str_eq kind "City"
      then some ("Browse current exhibitions in " <> shown item.display)
      else if includes tagged_types kind
      then some (strip_tags item.description)
      else none

  unfoldable pub formatted_description : (Option String → String) → SearchItem → Option String
  unfolding describe
  formatted_description strip_tags item = describe strip_tags (display_type item) item
