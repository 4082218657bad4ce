-- ===== src/Version/Tests.antt =====
-- App versions on concrete inputs.
use metaphysics.Common.{
  split, ◌≡◌, refl, ◌↔◌, true, Option, none, some, ℕ, String, str_eq, if◌then◌else◌,
}
use metaphysics.Version.{
  parse_version, get_eigen_version_number, is_at_least_version, is_at_most_version,
}
use metaphysics.Version.Order.{
  release, LexLe, is_at_least_version_iff, release_between, is_at_least_version_trans,
}

abbrev to_number : String → Option ℕ
to_number s = if str_eq s "8" then some 8 else if str_eq s "59" then some 59 else none

user_agent :
    get_eigen_version_number to_number (some "Artsy-Mobile ios Eigen/2023.8/8.59.8")
    ≡ some (release 8 59 8)
unfolding get_eigen_version_number parse_version split
user_agent = refl

is_at_least_version_iff_example :
    (is_at_least_version (release 8 59 0) (release 8 32 7) ≡ true) ↔ LexLe 8 32 7 8 59 0
is_at_least_version_iff_example = is_at_least_version_iff 8 32 7 8 59 0

same : is_at_least_version (release 8 59 0) (release 8 59 0) ≡ true
unfolding is_at_least_version
same = refl

same' : is_at_most_version (release 8 59 0) (release 8 59 0) ≡ true
unfolding is_at_most_version
same' = refl

release_between_example : release 8 59 0 ≡ release 8 59 0
release_between_example = release_between 8 59 0 8 59 0 same same'

later : is_at_least_version (release 9 1 0) (release 8 59 0) ≡ true
unfolding is_at_least_version
later = refl

is_at_least_version_trans_example : is_at_least_version (release 9 1 0) (release 8 59 0) ≡ true
is_at_least_version_trans_example = is_at_least_version_trans 8 59 0 8 59 0 9 1 0 later same
