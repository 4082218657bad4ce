-- ===== src/Dates/Phases.antt =====
-- Which label is shown when: the phases of an exhibition and of an auction.
use metaphysics.Common.{
  ℕ, ◌≤◌, ◌≡◌, refl, ◌↔◌, ◌⊎◌, ◌<>◌, Bool, true, false, ◌&&◌, ◌||◌, Option, none, some, String,
  arith, ltb, leb, is_truthy, is_some, non_empty, non_empty-append,
}
use metaphysics.Common.Int.{ℤ, pos, negsuc}
use metaphysics.Dates.{DateInput, is_given, Moments}
use metaphysics.Dates.Status.{
  zone_or_default, relative_label, relative_days, exhibition_status, formatted_start_date_time,
}

-- moment's comparisons, on valid moments, compare the instants that they stand for.
pub record Timeline {M : Type 0} (m : Moments M) : Type 0 where
  pub instant : M → ℕ
  pub before : (a b : M) → Moments.is_before m a b ≡ ltb (instant a) (instant b)
  pub after : (a b : M) → Moments.is_after m a b ≡ ltb (instant b) (instant a)

-- The days from one date to the other are from 0 to the bound, or at most 1.
abbrev pub near : ℕ → Option ℤ → Bool
near max none = false
near max (some (negsuc n)) = false
near max (some (pos n)) = leb n max || leb n 1

module _ {M : Type 0} (m : Moments M) where
  open m use {tz, now_in, start_of_day, diff_days}

  relative_label-near :
      (prefix : String) (max : ℕ) (d : Option ℤ)
      → non_empty prefix ≡ true
      → (is_some (relative_label m prefix max d) ≡ near max d)
        × (is_truthy (relative_label m prefix max d) ≡ near max d)
  unfolding relative_label
  relative_label-near prefix max none h = (refl, refl)
  relative_label-near prefix max (some (negsuc n)) h = (refl, refl)
  relative_label-near prefix max (some (pos n)) h = ground (
    arith,
    non_empty-append prefix " today",
    non_empty-append prefix " tomorrow",
    non_empty-append prefix (" in " <> (Moments.string_of m (pos n) <> " days")),
  )

  pub start_delta : DateInput → String → Option ℤ
  start_delta start_at timezone =
      diff_days (start_of_day (tz start_at timezone)) (start_of_day (now_in timezone))

  -- An exhibition has a status exactly when its opening is near, or its end is given and near.
  pub exhibition_status-near :
      (start_at end_at : DateInput) (timezone : String) (max : ℕ)
      → is_some (exhibition_status m start_at end_at timezone max) ≡ (
          near max (start_delta start_at timezone)
          || (is_given end_at && near max (start_delta end_at timezone)))
  unfolding exhibition_status relative_days start_delta
  exhibition_status-near start_at end_at timezone max = ground (
    arith,
    relative_label-near "Opening" max (start_delta start_at timezone) refl,
    relative_label-near "Closing" max (start_delta end_at timezone) refl,
  )

  module _ (line : Timeline m) (start_at end_at live_start_at : DateInput)
      (timezone : Option String) where
    abbrev pub at : DateInput → ℕ
    at d = line.instant (tz d (zone_or_default timezone))

    abbrev pub present : ℕ
    present = line.instant (now_in (zone_or_default timezone))

    -- A started auction with a given end has no label only at its very end and, if it has a live
    -- start, at the very instant of that before the end.
    pub formatted_start_date_time_gaps :
        is_given end_at ≡ true
        → (formatted_start_date_time m start_at end_at live_start_at timezone ≡ none) ↔ (
            (at start_at ≤ present)
            × (present ≤ at end_at)
            × ((is_given live_start_at ≡ true)
                  × (at live_start_at ≤ present)
                  × ((present ≡ at live_start_at) ⊎ (present ≡ at end_at))
                ⊎ (is_given live_start_at ≡ false) × (present ≡ at end_at)))
    unfolding formatted_start_date_time
    formatted_start_date_time_gaps h =
        let zone = zone_or_default timezone in
        let now = now_in zone in
        ground (
          arith,
          line.before now (tz start_at zone),
          line.after now (tz end_at zone),
          line.before now (tz end_at zone),
          line.before now (tz live_start_at zone),
          line.after now (tz live_start_at zone),
        )
