-- ===== src/DaySchedules/Tests.antt =====
-- Weeks of the repository's own test.
use metaphysics.Common.{ℕ, String, List, [], ◌∷◌, map, if◌then◌else◌, str_eq, ◌==◌, ltb, ◌≡◌, refl}
use metaphysics.DaySchedules.{DaySchedule, Times, grouped_week, format_day_schedules}

-- The times of the test, in the formats of the source.
abbrev times : Times
times = record {
  hour = λ (s : ℕ) (f : String).
      if str_eq f "a"
      then (if ltb s 43200 then "am" else "pm")
      else if s == 37800
      then "10"
      else "7";
  minute = λ (s : ℕ) (f : String).
      if s == 37800
      then (if str_eq f "mm" then "30" else ":30")
      else if str_eq f "mm"
      then "00"
      else ":00";
}

abbrev open_on : ℕ → DaySchedule
open_on day = record { day_of_week = day; start_time = 37800; end_time = 68400 }

abbrev closed_on_sunday : List DaySchedule
closed_on_sunday = map open_on (0 ∷ 1 ∷ 2 ∷ 3 ∷ 4 ∷ 5 ∷ [])

collapsed :
    format_day_schedules times closed_on_sunday
    ≡ record { days = "Monday–Saturday"; hours = "10:30am–7pm" }
      ∷ record { days = "Sunday"; hours = "Closed" }
      ∷ []
unfolding format_day_schedules grouped_week
collapsed = refl

split_week :
    format_day_schedules times (map open_on (0 ∷ 1 ∷ 4 ∷ 6 ∷ []))
    ≡ record { days = "Monday–Tuesday, Friday, Sunday"; hours = "10:30am–7pm" }
      ∷ record { days = "Wednesday–Thursday, Saturday"; hours = "Closed" }
      ∷ []
unfolding format_day_schedules grouped_week
split_week = refl

no_schedules : format_day_schedules times [] ≡ []
unfolding format_day_schedules
no_schedules = refl
