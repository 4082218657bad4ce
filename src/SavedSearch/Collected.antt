-- ===== src/SavedSearch/Collected.antt =====
-- What holds of the labels that are collected.
use metaphysics.Common.{
  String, Bool, true, false, Option, List, [], ◌∷◌, ◌++◌, ◌≡◌, refl, if◌then◌else◌, All, map,
}
use metaphysics.SavedSearch.{SearchCriteriaLabel, Outcome, done, failed, and_then, all_labels}
use metaphysics.SavedSearch.Labels.{Group, collect}

abbrev pub One : (SearchCriteriaLabel → Type 0) → Outcome SearchCriteriaLabel → Type 0
One P (done l) = P l
One P (failed e) = Unit

-- What holds of the labels of an outcome, if there are any.
abbrev pub Labels : (SearchCriteriaLabel → Type 0) → Outcome (List SearchCriteriaLabel) → Type 0
Labels P (done ls) = All P ls
Labels P (failed e) = Unit

module _ (P : SearchCriteriaLabel → Type 0) where
  pub append-All : (xs ys : List SearchCriteriaLabel) → All P xs → All P ys → All P (xs ++ ys)
  append-All [] ys h k = k
  append-All (x ∷ xs) ys (h, hs) k = (h, append-All xs ys hs k)

  pub map-All :
      (f : String → SearchCriteriaLabel) (xs : List String)
      → ((x : String) → P (f x))
      → All P (map f xs)
  map-All f [] h = tt
  map-All f (x ∷ xs) h = (h x, map-All f xs h)

  pub join-Labels :
      (a b : Outcome (List SearchCriteriaLabel))
      → Labels P a
      → Labels P b
      → Labels P (and_then a (λ ls. and_then b (λ rest. done (ls ++ rest))))
  join-Labels (failed e) b h k = tt
  join-Labels (done ls) (failed e) h k = tt
  join-Labels (done ls) (done rest) h k = append-All ls rest h k

  wanted-Labels :
      (b : Bool) (o : Outcome (List SearchCriteriaLabel))
      → (b ≡ true → Labels P o)
      → Labels P (if b then o else done [])
  wanted-Labels true o h = h refl
  wanted-Labels false o h = tt

  pub collect-Labels :
      (groups : List Group)
      → All (λ (g : Group). g.wanted ≡ true → Labels P g.labels) groups
      → Labels P (collect groups)
  collect-Labels [] h = tt
  collect-Labels (g ∷ groups) (h, hs) =
      join-Labels (if g.wanted then g.labels else done []) (collect groups)
        (wanted-Labels g.wanted g.labels h) (collect-Labels groups hs)

  more-Labels :
      (a : Outcome SearchCriteriaLabel) (b : Outcome (List SearchCriteriaLabel))
      → One P a
      → Labels P b
      → Labels P (and_then a (λ l. and_then b (λ ls. done (l ∷ ls))))
  more-Labels (failed e) b h k = tt
  more-Labels (done l) (failed e) h k = tt
  more-Labels (done l) (done ls) h k = (h, k)

  pub all_labels-Labels :
      (make : String → Outcome SearchCriteriaLabel) (xs : List String)
      → ((x : String) → One P (make x))
      → Labels P (all_labels make xs)
  all_labels-Labels make [] h = tt
  all_labels-Labels make (x ∷ xs) h =
      more-Labels (make x) (all_labels make xs) (h x) (all_labels-Labels make xs h)

  -- Of a look-up that answers or fails, the label of the answer.
  pub answered-One :
      (a : Outcome (Option String)) (make : Option String → SearchCriteriaLabel)
      → ((name : Option String) → P (make name))
      → One P (and_then a (λ name. done (make name)))
  answered-One (done name) make h = h name
  answered-One (failed e) make h = tt
