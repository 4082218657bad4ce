-- ===== src/SearchableItem/Tests.antt =====
-- Search results on concrete items.
use metaphysics.Common.{String, true, none, some, []}
use metaphysics.Common.Int.{pos}
use metaphysics.SearchableItem.{SearchItem, UtcMoments}

abbrev test_moments : UtcMoments (Unit {0})
test_moments = record {
  utc = λ t. tt;
  now = tt;
  is_valid = λ t. true;
  in_zone = λ t zone. tt;
  format = λ t pattern. pattern;
  start_of_day = λ t. t;
  diff_days = λ a b. pos 0;
  year = λ t. 2026;
  month = λ t. 11;
  date = λ t. 26;
  string_of = λ n. "2026";
}

abbrev item : String → SearchItem
item label = record {
  artist_names = [];
  description = some "A series";
  display = none;
  end_at = none;
  fair_id = none;
  href = none;
  id = some "id";
  image_url = none;
  label = label;
  live_start_at = none;
  location = none;
  model = some "model";
  owner_type = "";
  profile_id = none;
  published_at = none;
  start_at = none;
  venue = none;
}
