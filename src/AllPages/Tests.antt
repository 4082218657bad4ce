-- ===== src/AllPages/Tests.antt =====
-- The 22 works of the repository's own test, in pages of 10.
use metaphysics.Common.{
  ℕ, ◌+◌, ◌-◌, ◌*◌, String, Option, none, some, List, [], ◌∷◌, take, drop, if◌then◌else◌, ◌==◌, ◌≡◌,
  refl, arith,
}
use metaphysics.AllPages.{Params, Request, Response, all_via_loader, parse_count}
use metaphysics.AllPages.Followed.{FollowedArgs, all_followed_artists_loader}
use metaphysics.AllPages.Whole.{Serves, all_via_loader-whole}

abbrev works : List ℕ
works =
    1 ∷ 2 ∷ 3 ∷ 4 ∷ 5 ∷ 6 ∷ 7 ∷ 8 ∷ 9 ∷ 10 ∷ 11 ∷ 12 ∷ 13 ∷ 14 ∷ 15 ∷ 16 ∷ 17 ∷ 18 ∷ 19 ∷ 20 ∷ 21
    ∷ 22 ∷ []

abbrev params : Params String
params = record { size = some 10; rest = "artist_id" }

abbrev loader : Request String → Option (Response ℕ)
loader request = some (record {
  total_count = some "22";
  body = take request.size (drop ((request.page - 1) * request.size) works);
})

fans_out : all_via_loader loader params ≡ some works
unfolding all_via_loader
fans_out = refl

no_count : parse_count (some "none") ≡ none
unfolding parse_count
no_count = refl

one_fails :
    all_via_loader (λ (r : Request String). if r.page == 3 then none else loader r) params ≡ none
unfolding all_via_loader
one_fails = refl

same_page :
    (i size : ℕ) → take size (drop ((i + 1 - 1) * size) works) ≡ take size (drop (i * size) works)
same_page i size = let e : i + 1 - 1 ≡ i = omega arith in rw e refl

serves : Serves loader "artist_id" works
unfolding parse_count
serves = (
  (record { total_count = some "22"; body = [] }, refl, refl),
  λ i size. (
    record { total_count = some "22"; body = take size (drop ((i + 1 - 1) * size) works) },
    refl,
    same_page i size,
  ),
)

all_via_loader-whole_example : all_via_loader loader params ≡ some works
all_via_loader-whole_example = all_via_loader-whole loader params works (omega arith) serves

-- Followed artists are served in pages by their offset.
abbrev served_by : FollowedArgs → Option (List ℕ)
served_by args = some (take args.size (drop args.offset works))

all_followed : all_followed_artists_loader served_by ≡ some works
unfolding all_followed_artists_loader
all_followed = refl
