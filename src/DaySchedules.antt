-- ===== src/DaySchedules.antt =====
-- Opening hours of a week: src/schema/v2/types/formattedDaySchedules.ts.
-- A day is its number in the week, from 0 for Monday. What moment makes of the seconds of a time
-- is a parameter: the hour and the minute of it in a format.
mod Tests
pub mod Week
use metaphysics.Common.{
  ℕ, zero, suc, ◌+◌, ◌-◌, String, Bool, true, false, Option, none, some, List, [], ◌∷◌, ◌++◌, map,
  if◌then◌else◌, str_eq, ◌==◌, ◌<>◌, keep, join, includes, uniq, get_elem?, or_else,
}

pub record DaySchedule : Type 0 where
  pub day_of_week : ℕ
  pub start_time : ℕ
  pub end_time : ℕ

-- `moment().hour(s / 60 / 60).format(f)` and `moment().minutes(s / 60).format(f)`
pub record Times : Type 0 where
  pub hour : ℕ → String → String
  pub minute : ℕ → String → String

abbrev pub week : List ℕ
week = 0 ∷ 1 ∷ 2 ∷ 3 ∷ 4 ∷ 5 ∷ 6 ∷ []

abbrev pub day_names : List String
day_names = "Monday" ∷ "Tuesday" ∷ "Wednesday" ∷ "Thursday" ∷ "Friday" ∷ "Saturday" ∷ "Sunday" ∷ []

abbrev pub day_name : ℕ → String
day_name day = or_else (get_elem? day_names day) ""

-- The formatted schedule of one day.
pub record Day : Type 0 where
  pub start : ℕ
  pub hours : String

-- An entry of `daysOpen`.
pub record Run : Type 0 where
  pub start : ℕ
  pub end : Option ℕ
  pub hours : String

module _ (times : Times) where
  open times use {hour, minute}

  abbrev pub time_text : ℕ → String
  time_text time =
      hour time "h"
      <> ((if str_eq (minute time "mm") "00" then "" else minute time ":mm") <> hour time "a")

  abbrev pub hours_text : DaySchedule → String
  hours_text s = time_text s.start_time <> ("–" <> time_text s.end_time)

  abbrev pub joined_hours : List DaySchedule → String
  joined_hours [] = "Closed"
  joined_hours (s ∷ schedules) = join ", " (uniq (map hours_text (s ∷ schedules)))

  unfoldable pub format_day_schedule : List DaySchedule → ℕ → Day
  format_day_schedule schedules day = record {
    start = day;
    hours = joined_hours (keep (λ (s : DaySchedule). s.day_of_week == day) schedules);
  }

abbrev pub run_of : Day → Run
run_of day = record { start = day.start; end = none; hours = day.hours }

-- One round of the `each`: the last run is extended, or a new one is pushed.
abbrev pub add_day : List Run → Day → List Run
add_day [] day = run_of day ∷ []
add_day (r ∷ []) day =
    if str_eq day.hours r.hours then record r { end = some day.start } ∷ [] else r ∷ run_of day ∷ []
add_day (r ∷ s ∷ runs) day = r ∷ add_day (s ∷ runs) day

abbrev pub add_days : List Run → List Day → List Run
add_days runs [] = runs
add_days runs (day ∷ days) = add_days (add_day runs day) days

abbrev pub days_open : List Day → List Run
days_open [] = []
days_open (day ∷ days) = add_days (run_of day ∷ []) days

-- A group of `groupBy("hours")`
pub record HoursGroup : Type 0 where
  pub hours : String
  pub runs : List Run

abbrev pub add_run : Run → List HoursGroup → List HoursGroup
add_run r [] = record { hours = r.hours; runs = r ∷ [] } ∷ []
add_run r (g ∷ groups) =
    let rest = add_run r groups in
    if str_eq g.hours r.hours then record g { runs = g.runs ++ (r ∷ []) } ∷ groups else g ∷ rest

abbrev pub group_runs_onto : List HoursGroup → List Run → List HoursGroup
group_runs_onto groups [] = groups
group_runs_onto groups (r ∷ runs) = group_runs_onto (add_run r groups) runs

unfoldable pub group_by_hours : List Run → List HoursGroup
group_by_hours runs = group_runs_onto [] runs

pub record FormattedDays : Type 0 where
  pub days : String
  pub hours : String

abbrev pub run_text : Run → String
run_text r = elim r.end [
  | none ↦ day_name r.start
  | some end ↦ day_name r.start <> ("–" <> day_name end)
]

abbrev pub group_text : HoursGroup → FormattedDays
group_text g = record { days = join ", " (map run_text g.runs); hours = g.hours }

-- The groups of a week.
unfoldable pub grouped_week : Times → List DaySchedule → List HoursGroup
unfolding format_day_schedule group_by_hours
grouped_week times schedules =
    group_by_hours (days_open (map (format_day_schedule times schedules) week))

unfoldable pub format_day_schedules : Times → List DaySchedule → List FormattedDays
unfolding grouped_week
format_day_schedules times [] = []
format_day_schedules times (s ∷ schedules) = map group_text (grouped_week times (s ∷ schedules))
