-- ===== src/Shuffle/Tests.antt =====
-- Shuffles of the repository's own tests.
use mathlib.Core.List.{Perm}
use metaphysics.Common.{ℕ, ◌≡◌, refl, none, List, [], ◌∷◌}
use metaphysics.Shuffle.{xmur3, next_hash, random, shuffle, seeded_shuffle, daily_shuffle, Present}
use metaphysics.Shuffle.Fair.{shuffle-perm}

-- "hello world"
abbrev hello : List ℕ
hello = 104 ∷ 101 ∷ 108 ∷ 108 ∷ 111 ∷ 32 ∷ 119 ∷ 111 ∷ 114 ∷ 108 ∷ 100 ∷ []

hello_hash : next_hash (xmur3 hello) ≡ 2225606010
unfolding next_hash xmur3
hello_hash = refl

hello_hash_again : next_hash (next_hash (xmur3 hello)) ≡ 2106958649
unfolding next_hash xmur3
hello_hash_again = refl

-- 0.6270739405881613 of 2 ^ 32
first_draw : (random 1).0 ≡ 2693262067
unfolding random
first_draw = refl

-- "any seed will do"
abbrev any_seed : List ℕ
any_seed =
    97 ∷ 110 ∷ 121 ∷ 32 ∷ 115 ∷ 101 ∷ 101 ∷ 100 ∷ 32 ∷ 119 ∷ 105 ∷ 108 ∷ 108 ∷ 32 ∷ 100 ∷ 111 ∷ []

abbrev five : List ℕ
five = 1 ∷ 2 ∷ 3 ∷ 4 ∷ 5 ∷ []

five_shuffled : (shuffle 0 (seeded_shuffle any_seed) five).0 ≡ 3 ∷ 5 ∷ 4 ∷ 1 ∷ 2 ∷ []
unfolding shuffle seeded_shuffle
five_shuffled = refl

-- A clock that knows no zone, on "15/11/2022, 01:00:00".
abbrev november : Present
november = record {
  in_zone = λ (zone : List ℕ). none;
  in_utc = 49 ∷ 53 ∷ 47 ∷ 49 ∷ 49 ∷ 47 ∷ 50 ∷ 48 ∷ 50 ∷ 50 ∷ 44 ∷ 32 ∷ 48 ∷ 49 ∷ 58 ∷ 48 ∷ 48 ∷ [];
}

november_shuffle : daily_shuffle 0 november five [] ≡ 4 ∷ 2 ∷ 5 ∷ 3 ∷ 1 ∷ []
unfolding daily_shuffle
november_shuffle = refl

shuffle-perm_example : Perm (shuffle 0 7 five).0 five
shuffle-perm_example = shuffle-perm 0 7 five
