-- ===== src/Dates/Ranges.antt =====
-- What the formatted ranges show of the two dates.
use metaphysics.Common.{
  ℕ, ◌≡◌, String, true, false, not, ◌&&◌, ◌||◌, none, some, arith, if◌then◌else◌, ltb, num_eq, ◌<>◌,
}
use metaphysics.Dates.{
  DateInput, is_given, Moments, time_range, date_range, same_year, same_day, month_format_of,
}

module _ {M : Type 0} (m : Moments M) where
  open m use {tz, year, month, day_of_year, hours, format}

  -- Between valid dates the start of a time range shows am or pm exactly when one hour is before
  -- 12 and the other after 12. The hour 12, whose times are pm, counts as either half.
  pub time_range_halves :
      (start_at end_at : DateInput) (timezone : String) (a b : ℕ)
      → hours (tz start_at timezone) ≡ some a
      → hours (tz end_at timezone) ≡ some b
      → time_range m start_at end_at timezone
        ≡ format
            (tz start_at timezone)
            (if (ltb a 12 && ltb 12 b) || (ltb 12 a && ltb b 12) then "h:mma" else "h:mm")
          <> (" – " <> format (tz end_at timezone) "h:mma z")
  unfolding time_range
  time_range_halves start_at end_at timezone a b h k = ground (arith, h, k)

  -- How a range of two given dates is written: each part of a date is shown once if the dates
  -- share it, and with each date if not.
  abbrev pub range_text : String → M → M → String
  range_text month_format a b =
      if same_day m a b
      then format b (month_format <> " D, YYYY")
      else if not (same_year m a b)
      then format a ((month_format <> " D") <> ", YYYY")
        <> (" – " <> format b ((month_format <> " ") <> "D, YYYY"))
      else if num_eq (month a) (month b)
      then format a (month_format <> " D") <> (" – " <> format b "D, YYYY")
      else format a (month_format <> " D")
        <> (" – " <> format b ((month_format <> " ") <> "D, YYYY"))

  -- A range has no text exactly if it has no start; with a start only it is open; with both it is
  -- `range_text`, with months shortened for the format "short" only.
  pub date_range_shape :
      (start_at end_at : DateInput) (timezone length_format : String)
      → (is_given start_at ≡ false → date_range m start_at end_at timezone length_format ≡ none)
        × (is_given start_at ≡ true
            → is_given end_at ≡ false
            → date_range m start_at end_at timezone length_format
              ≡ some (
                  format (tz start_at timezone) (month_format_of length_format <> " D, YYYY")
                  <> " –"))
        × (is_given start_at ≡ true
            → is_given end_at ≡ true
            → date_range m start_at end_at timezone length_format
              ≡ some (
                  range_text
                    (month_format_of length_format)
                    (tz start_at timezone)
                    (tz end_at timezone)))
  unfolding date_range
  date_range_shape start_at end_at timezone length_format =
      (λ h. ground arith, λ h k. ground arith, λ h k. ground arith)
