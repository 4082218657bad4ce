-- ===== src/ArtworksForUser/Combined.antt =====
-- The artworks of a page: at most as many as asked for, none twice, and none left out for less.
use metaphysics.Common.{
  ℕ, zero, suc, ◌≤◌, String, true, false, not, List, [], ◌∷◌, ◌++◌, includes, Distinct, uniq_by,
  keep, take, drop, length, All, ◌≡◌, ap, ◌∙◌, arith, Bool-cases, inl, inr, ◌⊎◌, eq_iff, leb,
  leb_iff,
}
use metaphysics.Common.Uniq.{
  keys_by, uniq_by-Distinct, uniq_by-keys, take-Distinct, length-take_bound, take_short,
}
use metaphysics.ArtworksForUser.{Args, combined_artworks, filtered_artwork_ids, sliced_artwork_ids}

listed-All :
    (ks all : List String)
    → ((k : String) → includes all k ≡ true → includes ks k ≡ true)
    → All (λ (k : String). includes ks k ≡ true) all
listed-All ks [] h = tt
listed-All ks (x ∷ all) h =
    (h x (ground (arith, eq_iff x x)), listed-All ks all (λ k e. h k (ground arith)))

-- For any artworks that are new for the user and any backfill: at most `size` artworks are shown, no
-- id twice, and they are either as many as that or have every id of both.
pub combined_artworks-Distinct :
    {A : Type 0} (id : A → String) (size : ℕ) (new_for_you backfill : List A)
    → (length (combined_artworks id size new_for_you backfill) ≤ size)
      × Distinct (keys_by id (combined_artworks id size new_for_you backfill))
      × ((size ≤ length (combined_artworks id size new_for_you backfill))
          ⊎ All
              (λ (k : String).
                includes (keys_by id (combined_artworks id size new_for_you backfill)) k ≡ true)
              (keys_by id (new_for_you ++ backfill)))
unfolding combined_artworks
combined_artworks-Distinct id size new_for_you backfill =
    let all = new_for_you ++ backfill in
    let kept = uniq_by id [] all in
    (
      length-take_bound size kept,
      take-Distinct id size kept (uniq_by-Distinct id [] all),
      elim (Bool-cases (leb size (length (take size kept)))) [
        | inl e ↦ inl ((leb_iff size (length (take size kept))).0 e)
        | inr e ↦
            let short =
              take_short size kept (ground (arith, leb_iff size (length (take size kept)))) in
            inr (
              listed-All (keys_by id (take size kept)) (keys_by id all) (λ k h.
                ap (λ (l : List _). includes (keys_by id l) k) short ∙ uniq_by-keys id [] all k h))
      ],
    )

keep-All :
    (excluded xs : List String)
    → All
        (λ (x : String). includes excluded x ≡ false)
        (keep (λ (x : String). not (includes excluded x)) xs)
keep-All excluded [] = tt
keep-All excluded (x ∷ xs) = elim (Bool-cases (includes excluded x)) [
  | inl e ↦ rw e (keep-All excluded xs)
  | inr e ↦ rw e (e, keep-All excluded xs)
]

drop-All : (P : String → Type 0) (n : ℕ) (xs : List String) → All P xs → All P (drop n xs)
drop-All P zero xs h = h
drop-All P (suc n) [] h = h
drop-All P (suc n) (x ∷ xs) (a, h) = drop-All P n xs h

take-All : (P : String → Type 0) (n : ℕ) (xs : List String) → All P xs → All P (take n xs)
take-All P zero xs h = tt
take-All P (suc n) [] h = h
take-All P (suc n) (x ∷ xs) (a, h) = (a, take-All P n xs h)

-- The ids that are asked for on a page are at most `size`, and none is excluded.
pub sliced_artwork_ids-All :
    (args : Args) (ids : List String)
    → (length (sliced_artwork_ids args ids) ≤ args.size)
      × All
          (λ (id : String). includes args.exclude_artwork_ids id ≡ false)
          (sliced_artwork_ids args ids)
unfolding sliced_artwork_ids filtered_artwork_ids
sliced_artwork_ids-All args ids =
    let allowed = filtered_artwork_ids args ids in
    (
      length-take_bound args.size (drop args.offset allowed),
      take-All (λ (id : String). includes args.exclude_artwork_ids id ≡ false) args.size
          (drop args.offset allowed)
          (drop-All (λ (id : String). includes args.exclude_artwork_ids id ≡ false) args.offset
            allowed (keep-All args.exclude_artwork_ids ids)),
    )
