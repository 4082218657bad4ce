-- ===== src/Version/Order.antt =====
-- The two version tests are the lexicographic order.
use metaphysics.Common.{ℕ, ◌≤◌, ◌<◌, ◌≡◌, refl, ◌↔◌, ◌⊎◌, true, some, arith}
use metaphysics.Version.{SemanticVersionNumber, is_at_least_version, is_at_most_version}

-- A version all of whose components are numbers.
abbrev pub release : ℕ → ℕ → ℕ → SemanticVersionNumber
release major minor patch = record { major = some major; minor = some minor; patch = some patch }

-- The lexicographic order on triples of numbers.
abbrev pub LexLe : ℕ → ℕ → ℕ → ℕ → ℕ → ℕ → Type 0
LexLe a b c x y z = (a < x) ⊎ ((a ≡ x) × ((b < y) ⊎ ((b ≡ y) × (c ≤ z))))

-- On versions whose components are numbers, "at least" is the lexicographic order.
pub is_at_least_version_iff :
    (a b c x y z : ℕ)
    → (is_at_least_version (release x y z) (release a b c) ≡ true) ↔ LexLe a b c x y z
unfolding is_at_least_version
is_at_least_version_iff a b c x y z = ground arith

-- "At most" is "at least" with its arguments exchanged, also where components are NaN.
pub is_at_most_version-flip :
    (v w : SemanticVersionNumber) → is_at_most_version v w ≡ is_at_least_version w v
unfolding is_at_most_version is_at_least_version
is_at_most_version-flip v w = refl

-- A release lies in the range from itself to itself only: a version that is both at least and at
-- most a given one is that one.
pub release_between :
    (a b c x y z : ℕ)
    → is_at_least_version (release x y z) (release a b c) ≡ true
    → is_at_most_version (release x y z) (release a b c) ≡ true
    → release x y z ≡ release a b c
unfolding is_at_least_version is_at_most_version
release_between a b c x y z h k = ground arith

-- "At least" is transitive and total on releases.
pub is_at_least_version_trans :
    (a b c p q r x y z : ℕ)
    → is_at_least_version (release x y z) (release p q r) ≡ true
    → is_at_least_version (release p q r) (release a b c) ≡ true
    → is_at_least_version (release x y z) (release a b c) ≡ true
is_at_least_version_trans a b c p q r x y z h k = (is_at_least_version_iff a b c x y z).1 (
    lex_trans ((is_at_least_version_iff a b c p q r).0 k)
      ((is_at_least_version_iff p q r x y z).0 h))
  where
    lex_trans : LexLe a b c p q r → LexLe p q r x y z → LexLe a b c x y z
    lex_trans m n = ground arith
