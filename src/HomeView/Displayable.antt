-- ===== src/HomeView/Displayable.antt =====
-- When a section can be displayed, told without the order of the tests.
use metaphysics.Common.{
  ◌≡◌, ◌↔◌, Bool, true, not, ◌&&◌, ◌||◌, Option, none, some, String, arith, is_truthy, non_empty,
}
use metaphysics.Version.{
  SemanticVersionNumber, get_eigen_version_number, is_at_least_version, is_at_most_version,
}
use metaphysics.HomeView.{
  Context, HomeViewSection, is_feature_flag_enabled, passes_flag, passes_version, passes_check,
  is_section_displayable,
}

-- A flag that is given and not empty is on.
abbrev pub FlagOn : Option String → Context → Type 0
FlagOn none c = Unit
FlagOn (some flag) c = non_empty flag ≡ true → is_feature_flag_enabled flag c ≡ true

-- A known app version meets a bound that is given.
abbrev pub Meets :
    (SemanticVersionNumber → SemanticVersionNumber → Bool)
    → Option SemanticVersionNumber
    → Option SemanticVersionNumber
    → Type 0
Meets test none actual = Unit
Meets test (some bound) none = Unit
Meets test (some bound) (some actual) = test actual bound ≡ true

abbrev pub CheckHolds : Option (Context → Bool) → Context → Type 0
CheckHolds none c = Unit
CheckHolds (some check) c = check c ≡ true

pub record IsDisplayable (s : HomeViewSection) (c : Context) : Type 0 where
  pub authorized : s.requires_authentication ≡ true → is_truthy c.access_token ≡ true
  pub flag_on : FlagOn s.feature_flag c
  pub above :
      Meets is_at_least_version s.minimum_eigen_version
        (get_eigen_version_number c.to_number c.user_agent)
  pub below :
      Meets is_at_most_version s.maximum_eigen_version
        (get_eigen_version_number c.to_number c.user_agent)
  pub checked : CheckHolds s.should_be_displayed c

flag_iff :
    (o : Option String) (c : Context) (d : Bool)
    → (passes_flag o c d ≡ true) ↔ ((d ≡ true) × FlagOn o c)
unfolding passes_flag
flag_iff none c d = (λ h. (h, tt), λ h. h.0)
flag_iff (some flag) c d = ground arith

version_iff :
    (test : SemanticVersionNumber → SemanticVersionNumber → Bool)
    (o a : Option SemanticVersionNumber) (d : Bool)
    → (passes_version test o a d ≡ true) ↔ ((d ≡ true) × Meets test o a)
unfolding passes_version
version_iff test none a d = (λ h. (h, tt), λ h. h.0)
version_iff test (some bound) none d = (λ h. (h, tt), λ h. h.0)
version_iff test (some bound) (some actual) d = ground arith

check_iff :
    (o : Option (Context → Bool)) (c : Context) (d : Bool)
    → (passes_check o c d ≡ true) ↔ ((d ≡ true) × CheckHolds o c)
unfolding passes_check
check_iff none c d = (λ h. (h, tt), λ h. h.0)
check_iff (some check) c d = ground arith

auth_iff : (r a : Bool) → ((not r || (r && a)) ≡ true) ↔ (r ≡ true → a ≡ true)
auth_iff r a = ground arith

-- A section is displayed exactly when the user may see it, its flag is on, a known app version
-- lies in its range, and its own check holds.
pub is_section_displayable_iff :
    (s : HomeViewSection) (c : Context) → (is_section_displayable s c ≡ true) ↔ IsDisplayable s c
unfolding is_section_displayable
is_section_displayable_iff s c = (
  λ h.
      let (h₁, checked) = (check_iff s.should_be_displayed c _).0 h in
      let (h₂, below) = (version_iff is_at_most_version s.maximum_eigen_version _ _).0 h₁ in
      let (h₃, above) = (version_iff is_at_least_version s.minimum_eigen_version _ _).0 h₂ in
      let (h₄, flag_on) = (flag_iff s.feature_flag c _).0 h₃ in
      record {
        authorized = (auth_iff _ _).0 h₄;
        flag_on = flag_on;
        above = above;
        below = below;
        checked = checked;
      },
  λ d. (check_iff s.should_be_displayed c _).1 (
    (version_iff is_at_most_version s.maximum_eigen_version _ _).1 (
      (version_iff is_at_least_version s.minimum_eigen_version _ _).1
          ((flag_iff s.feature_flag c _).1 ((auth_iff _ _).1 d.authorized, d.flag_on), d.above),
      d.below,
    ),
    d.checked,
  ),
)
