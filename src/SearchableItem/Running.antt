-- ===== src/SearchableItem/Running.antt =====
-- The status of a show in its heading.
use metaphysics.Common.{◌≡◌, true, arith}
use metaphysics.Common.Int.{ℤ, pos, ltb_ℤ, leb_ℤ}
use metaphysics.SearchableItem.{status_label}

-- For a show that does not end before it starts, by the days from today to its start and its end:
-- it is past exactly if it ended before today, upcoming exactly if it starts after today, and
-- current in all other cases.
pub status_label_phase :
    (start_diff end_diff : ℤ)
    → leb_ℤ start_diff end_diff ≡ true
    → (ltb_ℤ end_diff (pos 0) ≡ true → status_label start_diff end_diff ≡ "Past")
      × (ltb_ℤ (pos 0) start_diff ≡ true → status_label start_diff end_diff ≡ "Upcoming")
      × (leb_ℤ start_diff (pos 0) ≡ true
          → leb_ℤ (pos 0) end_diff ≡ true
          → status_label start_diff end_diff ≡ "Current")
unfolding status_label
status_label_phase start_diff end_diff h =
    (λ p. ground arith, λ p. ground arith, λ p q. ground arith)
