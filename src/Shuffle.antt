-- ===== src/Shuffle.antt =====
-- The seeded shuffle: src/lib/shuffle.ts.
-- A number that a bitwise operator of the runtime gives stands as its pattern of 32 bits, below
-- 2 ^ 32: `% u32` is the wrap-around, `imul` is `Math.imul`, and a text is the list of its UTF-16
-- code units. The state of `mulberry32` grows without wrapping, which the runtime's numbers do
-- exactly below 2 ^ 53, so for the first four million draws. A draw is kept as the pattern `r` of
-- which the code returns r / 2 ^ 32; its product with the length of an array is exact up to
-- 2 ^ 21 elements.
pub mod Draws
pub mod Fair
mod Tests
use Prim.Native.Nat.{bit_or, bit_xor}
use metaphysics.Common.{
  ℕ, zero, suc, ◌+◌, ◌-◌, ◌*◌, ◌/◌, ◌%◌, String, Option, none, some, List, [], ◌∷◌, get_elem?,
  or_else, take, length,
}

abbrev pub u32 : ℕ
u32 = 0x100000000

unfoldable pub imul : ℕ → ℕ → ℕ
imul a b = a % u32 * b % u32

-- `h << 13 | h >>> 19`
unfoldable pub rotate : ℕ → ℕ
rotate h = bit_or (h * 0x2000 % u32) (h / 0x80000)

-- The loop of `xmur3` over the code units.
unfoldable pub xmur3_loop : ℕ → List ℕ → ℕ
unfolding imul rotate
xmur3_loop h [] = h
xmur3_loop h (c ∷ str) = xmur3_loop (rotate (imul (bit_xor h c) 3432918353)) str

-- The variable `h` of the function that `xmur3` returns.
unfoldable pub xmur3 : List ℕ → ℕ
unfolding xmur3_loop
xmur3 str = xmur3_loop (bit_xor 1779033703 (length str)) str

-- A call of that function: the hash that it returns is also the new `h`.
unfoldable pub next_hash : ℕ → ℕ
unfolding imul
next_hash h =
    let first = imul (bit_xor h (h / 0x10000)) 2246822507 in
    let second = imul (bit_xor first (first / 0x2000)) 3266489909 in
    bit_xor second (second / 0x10000) % u32

-- A call of the function that `mulberry32` returns: the draw and the new state.
unfoldable pub random : ℕ → ℕ × ℕ
unfolding imul
random a =
    let state = a + 0x6d2b79f5 in
    let t = state % u32 in
    let product = imul (bit_xor t (t / 0x8000)) (bit_or t 1) in
    let sum = product + imul (bit_xor product (product / 0x80)) (bit_or product 61) in
    let mixed = bit_xor product (sum % u32) in (bit_xor mixed (mixed / 0x4000) % u32, state)

-- `Math.floor(r / 2 ** 32 * m)`
unfoldable pub index : ℕ → ℕ → ℕ
index r m = r * m / u32

-- `undefined` is one of the values that an array may have.
module _ {ℓ} {A : Type ℓ} (undefined : A) where
  -- `xs[i]`
  abbrev pub read : ℕ → List A → A
  read i xs = or_else (get_elem? xs i) undefined

  -- `xs[i] = x`: beyond the end the array grows.
  abbrev pub set : ℕ → A → List A → List A
  set zero x [] = x ∷ []
  set (suc i) x [] = undefined ∷ set i x []
  set zero x (y ∷ ys) = x ∷ ys
  set (suc i) x (y ∷ ys) = y ∷ set i x ys

  -- The three assignments of the loop.
  unfoldable pub swap : ℕ → ℕ → List A → List A
  swap m i xs = let t = read m xs in set i t (set m (read i xs) xs)

  -- The loop from `m` on: the array and the state of `random` after it.
  unfoldable pub shuffle_loop : ℕ → ℕ → List A → List A × ℕ
  unfolding random index swap
  shuffle_loop zero a xs = (xs, a)
  shuffle_loop (suc m) a xs =
      let (r, state) = random a in shuffle_loop m state (swap m (index r (suc m)) xs)

  -- A call of `shuffle`
  unfoldable pub shuffle : ℕ → List A → List A × ℕ
  unfolding shuffle_loop
  shuffle a xs = shuffle_loop (length xs) a xs

-- The state with which `seededShuffle` starts.
unfoldable pub seeded_shuffle : List ℕ → ℕ
unfolding xmur3 next_hash
seeded_shuffle seed = next_hash (xmur3 seed)

-- `toLocaleString("en-GB", …)` of the present: in a time zone, with `none` for its RangeError, and
-- in UTC.
pub record Present : Type 0 where
  pub in_zone : List ℕ → Option (List ℕ)
  pub in_utc : List ℕ

abbrev pub or_utc : Option (List ℕ) → List ℕ → List ℕ
or_utc none utc = utc
or_utc (some today) utc = today

unfoldable pub daily_shuffle {ℓ} : {A : Type ℓ} → A → Present → List A → List ℕ → List A
unfolding seeded_shuffle shuffle
daily_shuffle undefined present array time_zone =
    let today = or_utc (present.in_zone time_zone) present.in_utc in
    (shuffle undefined (seeded_shuffle (take 10 today)) array).0
