-- ===== src/DaySchedules/Week.antt =====
-- The formatted days of a week show each day once, with its hours.
use mathlib.Core.List.{Perm, append-nil, append_assoc}
use mathlib.Core.List.Perm
use metaphysics.Common.{
  ℕ, zero, suc, ◌-◌, ◌≤◌, String, Bool, false, Option, none, some, List, [], ◌∷◌, ◌++◌, map, str_eq,
  any, ◌≡◌, sym, ap, ◌∙◌,
}
use metaphysics.DaySchedules.{Day, Run, HoursGroup}

abbrev pub days_from : ℕ → ℕ → List ℕ
days_from day zero = []
days_from day (suc n) = day ∷ days_from (suc day) n

-- The days of a run, from its start to its end.
abbrev pub span : ℕ → Option ℕ → List ℕ
span start none = start ∷ []
span start (some end) = days_from start (suc end - start)

-- Each day with hours.
abbrev pub at_hours : String → List ℕ → List (ℕ × String)
at_hours hours days = map (λ (day : ℕ). (day, hours)) days

abbrev pub run_days : Run → List (ℕ × String)
run_days r = at_hours r.hours (span r.start r.end)

abbrev pub runs_days : List Run → List (ℕ × String)
runs_days [] = []
runs_days (r ∷ runs) = run_days r ++ runs_days runs

-- What a client reads of a group: the hours of the group on the days of its runs.
abbrev pub group_days : String → List Run → List (ℕ × String)
group_days hours [] = []
group_days hours (r ∷ runs) = at_hours hours (span r.start r.end) ++ group_days hours runs

abbrev pub groups_days : List HoursGroup → List (ℕ × String)
groups_days [] = []
groups_days (g ∷ groups) = group_days g.hours g.runs ++ groups_days groups

-- The last day of a run.
abbrev LastOf : ℕ → Option ℕ → ℕ → Type 0
LastOf start none day = start ≡ day
LastOf start (some end) day = (end ≡ day) × (start ≤ end)

abbrev LastDay : List Run → ℕ → Type 0
LastDay [] day = ⊥
LastDay (r ∷ []) day = LastOf r.start r.end day
LastDay (r ∷ s ∷ runs) day = LastDay (s ∷ runs) day

runs_days-append :
    (xs : List Run) (r : Run) → runs_days (xs ++ (r ∷ [])) ≡ runs_days xs ++ run_days r
runs_days-append [] r = append-nil (run_days r)
runs_days-append (x ∷ xs) r =
    ap (λ (ds : List (ℕ × String)). run_days x ++ ds) (runs_days-append xs r)
    ∙ sym (append_assoc (run_days x) (runs_days xs) (run_days r))

-- Days in a row after a day.
abbrev InRow : ℕ → List Day → Type 0
InRow last [] = Unit
InRow last (day ∷ days) = (day.start ≡ suc last) × InRow day.start days

abbrev pub listed : List Day → List (ℕ × String)
listed days = map (λ (day : Day). (day.start, day.hours)) days

abbrev pub has_hours : String → List HoursGroup → Bool
has_hours hours groups = any (λ (g : HoursGroup). str_eq g.hours hours) groups

-- No hours have two groups.
abbrev pub OneHours : List HoursGroup → Type 0
OneHours [] = Unit
OneHours (g ∷ groups) = (has_hours g.hours groups ≡ false) × OneHours groups
