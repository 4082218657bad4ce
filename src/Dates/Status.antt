-- ===== src/Dates/Status.antt =====
-- Display of opening, closing and auction times: src/lib/date.ts, from `relativeDays` on.
use metaphysics.Common.{
  ℕ, String, ◌&&◌, ◌||◌, not, Option, none, some, if◌then◌else◌, is_truthy, ◌<>◌, non_empty, leb,
  ◌==◌,
}
use metaphysics.Common.Int.{ℤ, pos, negsuc}
use metaphysics.Dates.{
  DateInput, is_given, Moments, default_tz, single_date_time, single_date, date_range,
}

-- `timezone || DEFAULT_TZ`
abbrev pub zone_or_default : Option String → String
zone_or_default none = default_tz
zone_or_default (some zone) = if non_empty zone then zone else default_tz

module _ {M : Type 0} (m : Moments M) where
  open m use {tz, now, now_in, format, start_of_day, diff_days, is_before, is_after, string_of}

  -- The ladder of `relativeDays` on the difference in days; `none` is NaN.
  unfoldable pub relative_label : String → ℕ → Option ℤ → Option String
  relative_label prefix max none = none
  relative_label prefix max (some (negsuc n)) = none
  relative_label prefix max (some (pos n)) =
      if n == 0
      then some (prefix <> " today")
      else if n == 1
      then some (prefix <> " tomorrow")
      else if leb n max
      then some (prefix <> (" in " <> (string_of (pos n) <> " days")))
      else none

  unfoldable pub relative_days : String → M → M → ℕ → Option String
  unfolding relative_label
  relative_days prefix today other max = relative_label prefix max (diff_days other today)

  -- A status that is not empty is returned.
  unfoldable pub exhibition_status : DateInput → DateInput → String → ℕ → Option String
  exhibition_status start_at end_at timezone max =
      let today = start_of_day (now_in timezone) in
      let opening_status =
        relative_days "Opening" today (start_of_day (tz start_at timezone)) max in
      if is_truthy opening_status
      then opening_status
      else if not (is_given end_at)
      then none
      else relative_days "Closing" today (start_of_day (tz end_at timezone)) max

  unfoldable pub formatted_opening_hours : DateInput → DateInput → String → Option String
  formatted_opening_hours start_at end_at timezone =
      if is_before now (tz start_at timezone)
      then some ("Opens " <> single_date_time m start_at timezone)
      else if not (is_given end_at)
      then none
      else if is_before now (tz end_at timezone)
      then some ("Closes " <> single_date_time m end_at timezone)
      else some "Closed"

  unfoldable pub cascading_formatted_start_date_time :
      DateInput → DateInput → DateInput → Option String → Option String
  cascading_formatted_start_date_time start_at end_at ended_at timezone =
      let zone = zone_or_default timezone in
      if is_given ended_at
      then some ("Closed " <> format (tz ended_at zone) "MMM D, YYYY")
      else if is_after (now_in zone) (tz end_at zone)
      then some "Closing soon"
      else date_range m start_at end_at zone "long"

  -- `${format("MMM D, YYYY")} • ${format("h:mma z")}`
  abbrev pub day_and_time : M → String
  day_and_time at = format at "MMM D, YYYY" <> (" • " <> format at "h:mma z")

  unfoldable pub auctions_detail_formatted_start_date_time :
      DateInput → DateInput → DateInput → DateInput → Option String → String
  auctions_detail_formatted_start_date_time start_at end_at ended_at live_start_at timezone =
      let zone = zone_or_default timezone in
      let this_moment = now_in zone in
      let lots_closing = tz end_at zone in
      let live_start = tz live_start_at zone in
      if is_given ended_at
      then "Closed " <> day_and_time (tz ended_at zone)
      else if is_before this_moment (tz start_at zone)
      then day_and_time (tz start_at zone)
      else if is_given live_start_at && is_before this_moment live_start
      then "Live " <> day_and_time live_start
      else if is_given live_start_at
          && (is_after this_moment live_start
              && (is_before this_moment lots_closing || not (is_given end_at)))
      then "In progress"
      else day_and_time lots_closing

  unfoldable pub formatted_end_date_time : DateInput → Option String → String
  formatted_end_date_time end_at timezone =
      let lot_end = tz end_at (zone_or_default timezone) in
      "Closes on " <> (format lot_end "MMM D" <> (" • " <> format lot_end "h:mma z"))

  unfoldable pub formatted_start_date_time :
      DateInput → DateInput → DateInput → Option String → Option String
  formatted_start_date_time start_at end_at live_start_at timezone =
      let zone = zone_or_default timezone in
      let this_moment = now_in zone in
      let end_moment = tz end_at zone in
      let live_start = tz live_start_at zone in
      if is_before this_moment (tz start_at zone)
      then some ("Starts " <> single_date_time m start_at zone)
      else if is_given end_at
      then if is_after this_moment end_moment
        then some ("Ended " <> single_date m end_at zone)
        else if is_given live_start_at
        then if is_before this_moment live_start
          then some ("Live " <> single_date_time m live_start_at zone)
          else if is_after this_moment live_start && is_before this_moment end_moment
          then some "In progress"
          else none
        else if is_before this_moment end_moment
        then some ("Ends " <> single_date_time m end_at zone)
        else none
      else if is_given live_start_at
      then if is_before this_moment live_start
        then some ("Live " <> single_date_time m live_start_at zone)
        else some "In progress"
      else none
