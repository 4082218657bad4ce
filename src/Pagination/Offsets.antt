-- ===== src/Pagination/Offsets.antt =====
-- The page number and the offset that are sent to Gravity, in cursor mode and in page mode.
use metaphysics.Common.{ℕ, zero, suc, ◌+◌, ◌*◌, ◌≤◌, ◌<◌, ◌≡◌, sym, Option, none, some, arith}
use metaphysics.Common.Int.{pos, ◌-ℤ◌, ◌*ℤ◌}
use metaphysics.Pagination.Args.{
  ConnectionOptions, page_offset, page_of_offset, convert_connection_args_to_gravity_args,
}
use native.Mathlib.Nat.{div-eq_of_lt-le}

page_of_offset-nearest :
    (s o : ℕ)
    → (2 * (suc s * page_of_offset (some (suc s)) o) ≤ 2 * (suc s + o) + suc s)
      × (2 * (suc s + o) < 2 * (suc s * page_of_offset (some (suc s)) o) + suc s)
unfolding page_of_offset
page_of_offset-nearest s o = (grind arith, grind arith)

page_of_offset-whole : (s k : ℕ) → page_of_offset (some (suc s)) (k * suc s) ≡ suc k
unfolding page_of_offset
page_of_offset-whole s k = div-eq_of_lt-le (2 * suc s) (grind arith) (grind arith)

page_of_offset-at : (n k : ℕ) → 0 < n → page_of_offset (some n) (k * n) ≡ suc k
page_of_offset-at zero k h = elim h [ ]
page_of_offset-at (suc s) k h = page_of_offset-whole s k

page_of_offset-near :
    (n offset : ℕ)
    → 0 < n
    → (2 * (n * page_of_offset (some n) offset) ≤ 2 * (n + offset) + n)
      × (2 * (n + offset) < 2 * (n * page_of_offset (some n) offset) + n)
page_of_offset-near zero offset h = elim h [ ]
page_of_offset-near (suc s) offset h = page_of_offset-nearest s offset

pub page_offset-whole : (s k : ℕ) → page_offset (suc k) (some s) ≡ pos (k * s)
unfolding page_offset ◌-ℤ◌ ◌*ℤ◌
page_offset-whole s k = ground arith

module _ {R : Type 0} (get_paging_parameters : ConnectionOptions R → Option ℕ × ℕ)
    (options : ConnectionOptions R) (size : ℕ) (positive : 0 < size)
    (cursors : options.page ≡ none) where
  convert_lem :
      (offset : ℕ)
      → get_paging_parameters options ≡ (some size, offset)
      → convert_connection_args_to_gravity_args get_paging_parameters options ≡ record {
        size = some size;
        page = page_of_offset (some size) offset;
        offset = pos offset;
        rest = options.rest;
      }
  unfolding convert_connection_args_to_gravity_args
  convert_lem offset e = ground (arith, cursors, e)

  -- Where a cursor's offset is a whole number of pages, the page sent to Gravity is the page whose
  -- offset in page mode, at the same size, is that offset.
  pub convert-page_offset :
      (k : ℕ)
      → get_paging_parameters options ≡ (some size, k * size)
      → let args = convert_connection_args_to_gravity_args get_paging_parameters options in
        (args.page ≡ suc k) × (args.offset ≡ page_offset args.page args.size)
  convert-page_offset k e = rw (convert_lem (k * size) e) (
      let whole = page_of_offset-at size k positive in
      (whole, rw whole (sym (page_offset-whole size k))))

  -- At any offset the page sent to Gravity is the nearest one: the end of that page lies at most
  -- half a size above the end of the slice, and less than half a size below.
  pub convert-page_nearest :
      (offset : ℕ)
      → get_paging_parameters options ≡ (some size, offset)
      → let p = (convert_connection_args_to_gravity_args get_paging_parameters options).page in
        (2 * (size * p) ≤ 2 * (size + offset) + size)
        × (2 * (size + offset) < 2 * (size * p) + size)
  convert-page_nearest offset e =
      rw (convert_lem offset e) (page_of_offset-near size offset positive)
