-- ===== src/AllPages/Followed.antt =====
-- All artists that a user follows: allFollowedArtistsLoader of src/lib/loaders/helpers.ts.
-- The loader is a parameter, which answers a request or rejects with `none`.
use mathlib.Core.List.{append-nil, append_assoc}
use metaphysics.Common.{
  ℕ, zero, suc, ◌+◌, ◌*◌, Bool, true, false, Bool-cases, inl, inr, Option, some, List, [], ◌∷◌,
  ◌++◌, ◌>>=◌, if◌then◌else◌, take, drop, take-take-drop, drop-add, ◌≡◌, refl, sym, ap, ◌∙◌, arith,
}

abbrev pub max_followed_artists_per_step : ℕ
max_followed_artists_per_step = 100

abbrev pub max_steps : ℕ
max_steps = 1

pub record FollowedArgs : Type 0 where
  pub size : ℕ
  pub offset : ℕ
  pub total_count : Bool

abbrev pub gravity_args_at : ℕ → FollowedArgs
gravity_args_at step = record {
  size = max_followed_artists_per_step;
  offset = step * max_followed_artists_per_step;
  total_count = false;
}

-- `artists < MAX_FOLLOWED_ARTISTS_PER_STEP` compares the list itself: of objects, only the empty
-- list is less, as 0.
abbrev pub is_less : {A : Type 0} → List A → Bool
is_less [] = true
is_less (a ∷ artists) = false

module _ {A : Type 0} (loader : FollowedArgs → Option (List A)) where
  -- The steps that are left, from the step given.
  abbrev pub steps_from : ℕ → ℕ → List A → Option (List A)
  steps_from step zero followed_artists = some followed_artists
  steps_from step (suc n) followed_artists = do
    artists ← loader (gravity_args_at step)
    let rest = steps_from (step + 1) n (followed_artists ++ artists)
    if is_less artists then some (followed_artists ++ artists) else rest

  unfoldable pub all_followed_artists_loader : Option (List A)
  all_followed_artists_loader = steps_from 0 max_steps []

module _ {A : Type 0} where
  take-nil : (n : ℕ) → take {A = A} n [] ≡ []
  take-nil zero = refl
  take-nil (suc n) = refl

module _ {A : Type 0} (loader : FollowedArgs → Option (List A)) (artists : List A)
    (serves : (args : FollowedArgs)
      → loader args ≡ some (take args.size (drop args.offset artists))) where
  abbrev from_step : ℕ → List A
  from_step step = drop (step * max_followed_artists_per_step) artists

  -- A page that is empty is followed by empty ones.
  empty_page :
      (xs acc : List A) (n m : ℕ)
      → is_less (take (suc n) xs) ≡ true
      → acc ++ take (suc n) xs ≡ acc ++ take m xs
  empty_page [] acc n m h = ap (λ (l : List A). acc ++ l) (sym (take-nil m))
  empty_page (x ∷ xs) acc n m h = cc

  next_page :
      (n step : ℕ) (acc : List A)
      → (acc ++ take 100 (from_step step)) ++ take (n * 100) (from_step (step + 1))
        ≡ acc ++ take (suc n * 100) (from_step step)
  next_page n step acc =
      let later : drop ((step + 1) * 100) artists ≡ drop 100 (from_step step) =
        ap (λ (k : ℕ). drop k artists) (omega arith) ∙ sym (drop-add (step * 100) 100 artists) in
      append_assoc acc (take 100 (from_step step)) (take (n * 100) (from_step (step + 1)))
      ∙ ap (λ (l : List A). acc ++ l)
          (ap (λ (l : List A). take 100 (from_step step) ++ take (n * 100) l) later
            ∙ take-take-drop 100 (n * 100) (suc n * 100) (from_step step) (omega arith))

  steps_from-take :
      (n step : ℕ) (acc : List A)
      → steps_from loader step n acc
        ≡ some (acc ++ take (n * max_followed_artists_per_step) (from_step step))
  steps_from-take zero step acc = ap some (sym (append-nil acc))
  steps_from-take (suc n) step acc = elim (Bool-cases (is_less (take 100 (from_step step)))) [
    | inl e ↦
        rw (serves (gravity_args_at step), e)
          (ap some (empty_page (from_step step) acc 99 (suc n * 100) e))
    | inr e ↦
        rw (serves (gravity_args_at step), e)
          (steps_from-take n (step + 1) (acc ++ take 100 (from_step step))
            ∙ ap some (next_page n step acc))
  ]

  -- Where the loader answers with the page that it is asked for of the followed artists, the first of
  -- them are loaded, in their order: as many as all steps together ask for.
  all_followed_artists_loader-first :
      all_followed_artists_loader loader
      ≡ some (take (max_steps * max_followed_artists_per_step) artists)
  unfolding all_followed_artists_loader
  all_followed_artists_loader-first = steps_from-take max_steps 0 []
