-- ===== src/Shuffle/Draws.antt =====
-- Where a draw falls: every index is in range, and every index in range can be drawn.
use metaphysics.Common.{ℕ, ◌+◌, ◌-◌, ◌*◌, ◌/◌, ◌≤◌, ◌<◌, ◌≡◌, arith}
use metaphysics.Shuffle.{u32, random, index}

draw_bound : (a : ℕ) → (random a).0 < u32
unfolding random
draw_bound a = omega arith

-- The index of a round with `m` elements left is one of theirs, whatever the state.
pub index_bound : (a m : ℕ) → 0 < m → index (random a).0 m < m
unfolding index
index_bound a m h = let b = draw_bound a in grind arith

quotient_bounds : (n m : ℕ) → 0 < m → (n / m * m ≤ n) × (n < n / m * m + m)
quotient_bounds n m h = grind arith

between :
    (p i m : ℕ) → m ≤ u32 → 0 < m → p ≤ i * u32 + (m - 1) → i * u32 + (m - 1) < p + m → p / u32 ≡ i
between p i m k h below above = omega arith

below_u32 : (q i m : ℕ) → i < m → m ≤ u32 → q * m ≤ i * u32 + (m - 1) → q < u32
below_u32 q i m h k below = grind arith

-- Of at most 2 ^ 32 elements, each can be the next: some draw below 2 ^ 32 gives its index.
pub index_onto : (i m : ℕ) → i < m → m ≤ u32 → (r : ℕ) × (r < u32) × (index r m ≡ i)
unfolding index
index_onto i m h k =
    let positive : 0 < m = omega arith in
    let (below, above) = quotient_bounds (i * u32 + (m - 1)) m positive in
    ((i * u32 + (m - 1)) / m, below_u32 _ i m h k below, between _ i m k positive below above)
