-- ===== src/Version.antt =====
-- App versions: src/lib/semanticVersioning.ts.
-- A component that is NaN or undefined is `none`; every comparison with it is false.
pub mod Order
mod Tests
use metaphysics.Common.{
  ℕ, String, Bool, true, false, Option, none, some, List, [], ◌∷◌, if◌then◌else◌, num_lt, num_le,
  split, last_of, has_text, non_empty, get_elem?,
}
use mathlib.Core.Option

pub record SemanticVersionNumber : Type 0 where
  pub major : Option ℕ
  pub minor : Option ℕ
  pub patch : Option ℕ

abbrev pub component : Option (Option ℕ) → Option ℕ
component none = none
component (some n) = n

-- `version.split(".").map(Number)`, where the runtime's `Number` is a parameter
unfoldable pub parse_version : (String → Option ℕ) → String → SemanticVersionNumber
parse_version to_number version =
    let parts = split b'.' version in
    record {
      major = component (Option.map to_number (get_elem? parts 0));
      minor = component (Option.map to_number (get_elem? parts 1));
      patch = component (Option.map to_number (get_elem? parts 2));
    }

abbrev pub version_of : (String → Option ℕ) → Option String → Option SemanticVersionNumber
version_of to_number none = none
version_of to_number (some version) =
    if non_empty version then some (parse_version to_number version) else none

unfoldable pub get_eigen_version_number :
    (String → Option ℕ) → Option String → Option SemanticVersionNumber
get_eigen_version_number to_number none = none
get_eigen_version_number to_number (some user_agent) =
    if non_empty user_agent
    then if has_text user_agent "Artsy-Mobile"
      then version_of to_number (last_of (split b'/' user_agent))
      else none
    else none

unfoldable pub is_at_least_version : SemanticVersionNumber → SemanticVersionNumber → Bool
is_at_least_version version at_least =
    if num_lt at_least.major version.major
    then true
    else if num_lt version.major at_least.major
    then false
    else if num_lt at_least.minor version.minor
    then true
    else if num_lt version.minor at_least.minor
    then false
    else num_le at_least.patch version.patch

unfoldable pub is_at_most_version : SemanticVersionNumber → SemanticVersionNumber → Bool
is_at_most_version version at_most =
    if num_lt version.major at_most.major
    then true
    else if num_lt at_most.major version.major
    then false
    else if num_lt version.minor at_most.minor
    then true
    else if num_lt at_most.minor version.minor
    then false
    else num_le version.patch at_most.patch
