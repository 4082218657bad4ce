-- ===== src/Dates.antt =====
-- Display of dates: src/lib/date.ts, up to `dateRange`; the later functions are in the child
-- `Status`.
-- moment-timezone is the parameter `Moments`. The instant of `moment()` is fixed during one call.
-- Fields of a date are natural numbers, and `none` (NaN) for a date that is not valid.
pub mod Status
pub mod Ranges
pub mod Phases
mod Tests
use metaphysics.Common.{
  ℕ, String, Bool, true, false, ◌&&◌, ◌||◌, not, Option, none, some, if◌then◌else◌, non_empty,
  num_le, num_eq, ◌<>◌, str_eq,
}
use metaphysics.Common.Int.{ℤ}

-- A date argument: a text, null or undefined. moment reads undefined as the present.
pub data DateInput : Type 0 where
  undefined null : DateInput
  given : String → DateInput

abbrev pub is_given : DateInput → Bool
is_given undefined = false
is_given null = false
is_given (given s) = non_empty s

-- The operations of moment-timezone that the code calls, over its type of moments.
pub record Moments (M : Type 0) : Type 0 where
  pub tz : DateInput → String → M
  pub now : M
  -- `moment.tz(moment(), timezone)`
  pub now_in : String → M
  pub year : M → Option ℕ
  pub month : M → Option ℕ
  pub day_of_year : M → Option ℕ
  pub hours : M → Option ℕ
  pub format : M → String → String
  pub start_of_day : M → M
  -- `other.diff(today, "days")`
  pub diff_days : M → M → Option ℤ
  pub is_before : M → M → Bool
  pub is_after : M → M → Bool
  -- a number in a template literal
  pub string_of : ℤ → String

abbrev pub default_tz : String
default_tz = "UTC"

abbrev pub month_format_of : String → String
month_format_of format = if str_eq format "short" then "MMM" else "MMMM"

module _ {M : Type 0} (m : Moments M) where
  open m use {tz, now, now_in, year, month, day_of_year, hours, format}

  abbrev pub same_year : M → M → Bool
  same_year a b = num_eq (year a) (year b)

  abbrev pub same_day : M → M → Bool
  same_day a b = num_eq (day_of_year a) (day_of_year b) && same_year a b

  unfoldable pub dates_are_same_day : DateInput → DateInput → String → Bool
  dates_are_same_day start_at end_at timezone =
      if not (is_given start_at) || not (is_given end_at)
      then false
      else same_day (tz start_at timezone) (tz end_at timezone)

  unfoldable pub single_time : DateInput → String → String
  single_time date timezone = format (tz date timezone) "h:mma z"

  -- The hours of `timeRange`'s test.
  unfoldable pub same_half : Option ℕ → Option ℕ → Bool
  same_half a b =
      (num_le a (some 12) && num_le b (some 12)) || (num_le (some 12) a && num_le (some 12) b)

  unfoldable pub time_range : DateInput → DateInput → String → String
  unfolding same_half
  time_range start_at end_at timezone =
      let start_moment = tz start_at timezone in
      let end_moment = tz end_at timezone in
      let start_hour =
        if same_half (hours start_moment) (hours end_moment)
        then format start_moment "h:mm"
        else format start_moment "h:mma" in
      start_hour <> (" – " <> format end_moment "h:mma z")

  unfoldable pub single_date_time : DateInput → String → String
  single_date_time date timezone =
      let this_moment = tz date timezone in
      if not (same_year (now_in timezone) this_moment)
      then format this_moment "MMM D, YYYY" <> (" at " <> format this_moment "h:mma z")
      else format this_moment "MMM D" <> (" at " <> format this_moment "h:mma z")

  unfoldable pub single_date : DateInput → String → String
  single_date date timezone =
      let this_moment = tz date timezone in
      if not (same_year now this_moment)
      then format this_moment "MMM D, YYYY"
      else format this_moment "MMM D"

  unfoldable pub single_date_with_day : DateInput → String → String
  single_date_with_day date timezone =
      let this_moment = tz date timezone in
      if not (same_year now this_moment)
      then format this_moment "ddd" <> (", " <> format this_moment "MMM D, YYYY")
      else format this_moment "ddd" <> (", " <> format this_moment "MMM D")

  unfoldable pub date_time_range : DateInput → DateInput → String → Bool → String
  unfolding dates_are_same_day time_range
  date_time_range start_at end_at timezone display_day_of_week =
      let start_moment = tz start_at timezone in
      let end_moment = tz end_at timezone in
      let month_format =
        if not (same_year start_moment end_moment) || not (same_year (now_in timezone) start_moment)
        then "MMM D" <> ", YYYY"
        else "MMM D" in
      let start_day = format start_moment month_format in
      let end_day = format end_moment month_format in
      let start_hour = format start_moment "h:mma" in
      let end_hour = format end_moment "h:mma z" in
      if dates_are_same_day start_at end_at timezone
      then if display_day_of_week
        then format start_moment "ddd"
          <> (", " <> (start_day <> (" from " <> time_range start_at end_at timezone)))
        else start_day <> (" from " <> time_range start_at end_at timezone)
      else if display_day_of_week
      then format start_moment "ddd"
        <> (", "
            <> (start_day
                <> (" at "
                    <> (start_hour
                        <> (" – "
                            <> (format end_moment "ddd"
                                <> (", " <> (end_day <> (" at " <> end_hour)))))))))
      else start_day <> (" at " <> (start_hour <> (" – " <> (end_day <> (" at " <> end_hour)))))

  unfoldable pub date_range : DateInput → DateInput → String → String → Option String
  date_range start_at end_at timezone length_format =
      let start_moment = tz start_at timezone in
      let end_moment = tz end_at timezone in
      let month_format = month_format_of length_format in
      let start_format =
        if not (same_year start_moment end_moment)
        then (month_format <> " D") <> ", YYYY"
        else month_format <> " D" in
      let end_format =
        if not (num_eq (month start_moment) (month end_moment))
          || not (same_year start_moment end_moment)
        then (month_format <> " ") <> "D, YYYY"
        else "D, YYYY" in
      if not (is_given start_at)
      then none
      else if not (is_given end_at)
      then some (format start_moment (month_format <> " D, YYYY") <> " –")
      else if same_day start_moment end_moment
      then some (format end_moment (month_format <> " D, YYYY"))
      else some (format start_moment start_format <> (" – " <> format end_moment end_format))
