-- ===== src/Dates/Tests.antt =====
-- Dates on a calendar of hours: a text stands for the hour that its length is.
use Prim.Native.String.{count}
use metaphysics.Common.{ℕ, ◌≡◌, refl, some, ltb}
use metaphysics.Common.Int.{sub_ℕ}
use metaphysics.Dates.{DateInput, undefined, null, given, Moments, time_range}
use metaphysics.Dates.Phases.{Timeline}

abbrev hour_of : DateInput → ℕ
hour_of undefined = 10
hour_of null = 0
hour_of (given s) = count s

abbrev test_moments : Moments ℕ
test_moments = record {
  tz = λ d zone. hour_of d;
  now = 10;
  now_in = λ zone. 10;
  year = λ n. some 2026;
  month = λ n. some 11;
  day_of_year = λ n. some n;
  hours = λ n. some n;
  format = λ n pattern. pattern;
  start_of_day = λ n. n;
  diff_days = λ a b. some (sub_ℕ a b);
  is_before = λ a b. ltb a b;
  is_after = λ a b. ltb b a;
  string_of = λ n. "3";
}

abbrev test_line : Timeline test_moments
test_line = record { instant = λ n. n; before = λ a b. refl; after = λ a b. refl }

noon : time_range test_moments (given "123456789") (given "123456789012") "UTC" ≡ "h:mm – h:mma z"
unfolding time_range
noon = refl
