-- ===== src/Shuffle/Fair.antt =====
-- What a shuffle keeps: it gives the elements of the array in another order.
use mathlib.Core.List.{Perm}
use mathlib.Core.List.Perm
use metaphysics.Common.{ap, ◌∙◌, ℕ, zero, suc, ◌≤◌, ◌<◌, ◌≡◌, refl, arith, List, [], ◌∷◌, length}
use metaphysics.Shuffle.{random, index, read, set, swap, shuffle_loop, shuffle}
use metaphysics.Shuffle.Draws.{index_bound}

module _ {ℓ} {A : Type ℓ} (undefined : A) where
  length-set :
      (i : ℕ) (x : A) (xs : List A) → i < length xs → length (set undefined i x xs) ≡ length xs
  length-set i x [] h = absurd (omega arith)
  length-set zero x (y ∷ ys) h = refl
  length-set (suc i) x (y ∷ ys) h = ap suc (length-set i x ys (omega arith))

  set-perm :
      (i : ℕ) (t : A) (xs : List A)
      → i < length xs
      → Perm (t ∷ xs) (read undefined i xs ∷ set undefined i t xs)
  set-perm i t [] h = absurd (omega arith)
  set-perm zero t (x ∷ xs) h = Perm.swap x t xs
  set-perm (suc i) t (x ∷ xs) h = Perm.trans (Perm.swap x t xs) (
      Perm.trans (Perm.cons x (set-perm i t xs (omega arith)))
        (Perm.swap (read undefined i xs) x (set undefined i t xs)))

  -- What stands at `i` after it was written at `m`.
  read-set :
      (m i : ℕ) (xs : List A)
      → m < length xs
      → i < length xs
      → read undefined i (set undefined m (read undefined i xs) xs) ≡ read undefined i xs
  read-set m i [] h k = absurd (omega arith)
  read-set zero zero (x ∷ xs) h k = refl
  read-set zero (suc i) (x ∷ xs) h k = refl
  read-set (suc m) zero (x ∷ xs) h k = refl
  read-set (suc m) (suc i) (x ∷ xs) h k = read-set m i xs (omega arith) (omega arith)

  -- Two indexes in range: beyond, `undefined` would come in.
  swap-perm :
      (m i : ℕ) (xs : List A) → m < length xs → i < length xs → Perm (swap undefined m i xs) xs
  unfolding swap
  swap-perm m i xs h k =
      let u = read undefined i xs in
      let t = read undefined m xs in
      let long = length-set m u xs h in
      let second = set-perm i t (set undefined m u xs) (omega arith) in
      Perm.symm
        (Perm.cons_inv (Perm.trans (set-perm m u xs h) (rw (read-set m i xs h k) at second)))

  length-swap :
      (m i : ℕ) (xs : List A)
      → m < length xs
      → i < length xs
      → length (swap undefined m i xs) ≡ length xs
  unfolding swap
  length-swap m i xs h k =
      let long = length-set m (read undefined i xs) xs h in
      length-set i (read undefined m xs) (set undefined m (read undefined i xs) xs) (omega arith)
      ∙ long

  loop-perm : (m a : ℕ) (xs : List A) → m ≤ length xs → Perm (shuffle_loop undefined m a xs).0 xs
  unfolding shuffle_loop
  loop-perm zero a xs h = Perm.refl xs
  loop-perm (suc m) a xs h =
      let drawn = index_bound a (suc m) (omega arith) in
      let kept = length-swap m (index (random a).0 (suc m)) xs (omega arith) (omega arith) in
      Perm.trans (loop-perm m _ (swap undefined m (index (random a).0 (suc m)) xs) (omega arith))
        (swap-perm m (index (random a).0 (suc m)) xs (omega arith) (omega arith))

  -- A shuffle, in whatever state, gives exactly the elements of the array, each as often as it
  -- stands there: no draw is beyond the end, where the array would get `undefined` and grow.
  pub shuffle-perm : (a : ℕ) (xs : List A) → Perm (shuffle undefined a xs).0 xs
  unfolding shuffle
  shuffle-perm a xs = loop-perm (length xs) a xs (omega arith)
