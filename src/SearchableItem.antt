-- ===== src/SearchableItem.antt =====
-- Search results: src/schema/v2/SearchableItem/SearchableItemPresenter.ts.
-- moment is the parameter `Moments`, with a type of its own for what this file asks of it; the
-- instant of `moment.utc()` is fixed during one call. A field of the response may be missing.
pub mod Descriptions
pub mod Types
pub mod Running
mod Tests
use mathlib.Core.Option
use metaphysics.Common.{
  shown, ℕ, zero, suc, ◌+◌, ◌-◌, ◌<◌, String, Bool, true, false, ◌&&◌, ◌||◌, not, Option, none,
  some, List, [], ◌∷◌, if◌then◌else◌, is_truthy, non_empty, or_text, or_else, join, includes,
  str_eq, ◌<>◌, ltb, ◌==◌, length, take, last_of, get_elem?,
}
use metaphysics.Common.Int.{ℤ, pos, negsuc, ltb_ℤ}

pub record SearchItem : Type 0 where
  pub artist_names : List String
  pub description : Option String
  pub display : Option String
  pub end_at : Option String
  pub fair_id : Option String
  pub href : Option String
  pub id : Option String
  pub image_url : Option String
  pub label : String
  pub live_start_at : Option String
  pub location : Option String
  pub model : Option String
  pub owner_type : String
  pub profile_id : Option String
  pub published_at : Option String
  pub start_at : Option String
  pub venue : Option String

-- The operations of moment on times in UTC.
pub record UtcMoments (M : Type 0) : Type 0 where
  pub utc : Option String → M
  pub now : M
  pub is_valid : M → Bool
  pub in_zone : M → String → M
  pub format : M → String → String
  pub start_of_day : M → M
  pub diff_days : M → M → ℤ
  pub year : M → ℕ
  pub month : M → ℕ
  pub date : M → ℕ
  -- a number in a template literal
  pub string_of : ℕ → String

abbrev pub date_format : String
date_format = "MMM Do, YYYY"

abbrev pub institution_types : List String
institution_types = "PartnerInstitution" ∷ "PartnerInstitutionalSeller" ∷ []

unfoldable pub display_type : SearchItem → String
display_type item =
    if str_eq item.label "Profile"
    then if includes institution_types item.owner_type
      then "Institution"
      else if str_eq item.owner_type "FairOrganizer"
      then "Fair"
      else "Gallery"
    else if str_eq item.label "Gene"
    then "Category"
    else if str_eq item.label "Sale"
    then "Auction"
    else if str_eq item.label "PartnerShow"
    then if is_truthy item.fair_id then "Booth" else "Show"
    else if str_eq item.label "MarketingCollection"
    then "Collection"
    else if str_eq item.label "ArtistSeries"
    then "Artist Series"
    else if str_eq item.label "ViewingRoom"
    then "Viewing Room"
    else item.label

-- The `switch` of `href` on the label.
unfoldable pub path_of : SearchItem → String
path_of item =
    if str_eq item.label "Profile"
    then "/" <> shown item.id
    else if str_eq item.label "Fair"
    then "/" <> shown item.profile_id
    else if str_eq item.label "Sale"
    then "/auction/" <> shown item.id
    else if str_eq item.label "City"
    then "/shows/" <> shown item.id
    else if str_eq item.label "MarketingCollection"
    then "/collection/" <> shown item.id
    else if str_eq item.label "Booth" || str_eq item.label "PartnerShow"
    then "/show/" <> shown item.id
    else if str_eq item.label "ArtistSeries"
    then "/artist-series/" <> shown item.id
    else if str_eq item.label "ViewingRoom"
    then "/viewing-room/" <> shown item.id
    else "/" <> (shown item.model <> ("/" <> shown item.id))

unfoldable pub href : SearchItem → String
unfolding path_of
href item = elim item.href [
  | none ↦ path_of item
  | some given ↦ if non_empty given then given else path_of item
]

abbrev pub missing_image : String
missing_image = "/assets/shared/missing_image.png"

unfoldable pub image_url : SearchItem → Option String
image_url item = elim item.image_url [
  | none ↦ none
  | some url ↦ if str_eq url missing_image then some "" else some url
]

unfoldable pub formatted_artist_names : SearchItem → Option String
formatted_artist_names item =
    let names = item.artist_names in
    if ltb 1 (length names)
    then some (join ", " (take (length names - 1) names) <> (" and " <> shown (last_of names)))
    else get_elem? names 0

-- `compact` of texts that may be missing
abbrev pub compact : List (Option String) → List String
compact [] = []
compact (none ∷ xs) = compact xs
compact (some s ∷ xs) = let rest = compact xs in if non_empty s then s ∷ rest else rest

-- `if (x) x = prefix + x`
abbrev pub prefixed : String → Option String → Option String
prefixed prefix none = none
prefixed prefix (some s) = if non_empty s then some (prefix <> s) else some s

abbrev pub plain_types : List String
plain_types = "Artwork" ∷ "Feature" ∷ "Gallery" ∷ "Page" ∷ []

abbrev pub tagged_types : List String
tagged_types = "Collection" ∷ "ArtistSeries" ∷ "Viewing Room" ∷ []

-- ` in ${location}`, where there is one
abbrev pub with_location : String → Option String → String
with_location text none = text
with_location text (some location) =
    if non_empty location then text <> (" in " <> location) else text

unfoldable pub status_label : ℤ → ℤ → String
status_label start_diff end_diff =
    if ltb_ℤ start_diff (pos 0) && ltb_ℤ end_diff (pos 0)
    then "Past"
    else if ltb_ℤ (pos 0) start_diff
    then "Upcoming"
    else "Current"
