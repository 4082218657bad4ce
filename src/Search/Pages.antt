-- ===== src/Search/Pages.antt =====
-- When there is a next page.
use metaphysics.Common.{ℕ, suc, ◌+◌, ◌-◌, ◌*◌, ◌<◌, true, some, ◌≡◌, ◌↔◌, arith}
use native.Mathlib.Nat.{le-div_iff_mul-le}
use metaphysics.Pagination.{ceil_div}
use metaphysics.Search.{has_next_page}

-- There is a page after the current one exactly if the results up to its end are fewer than all.
pub has_next_page_iff :
    (page total s : ℕ) → (has_next_page page total (some (suc s)) ≡ true) ↔ (page * suc s < total)
unfolding has_next_page ceil_div
has_next_page_iff page total s =
    let pages =
      le-div_iff_mul-le {k = suc s} {x = suc page} {y = total + suc s - 1} (omega arith) in
    (λ e. grind (arith, pages.0), λ h. grind (arith, pages.1))
